-- ===== src/Platform/Api/Signals.antt =====
-- The endpoints of platform/src/api/signal.py. A float is abstract: `duty_allowed` is the test
-- `0.0 < duty_cycle <= 1.0`.
use Prim.Native.String.{String}
use rose_esp.Prelude.{ℕ, Bool, ◌||◌, List, [], ◌∷◌, length, if◌then◌else◌}
use rose_esp.Prelude.Int.{ℤ, pos, ltb_ℤ, eqb_ℤ}
use rose_esp.Prelude.Dict.{Dict}
use rose_esp.Prelude.Result.{Result}
use rose_esp.Struct.{Bytes}
use rose_esp.Client.Resolution.{Edge}
use rose_esp.Platform.Service
use rose_esp.Platform.Schemas.{SignalTxRequest, SignalRxRequest, SignalExchangeRequest}
use rose_esp.Platform.Api.{Api, pure, fail, ◌>>=◌, connected, done, asked, check_capability}

abbrev pub max_signal_carrier_hz : ℤ
max_signal_carrier_hz = pos 500000

module _ {C : Type 0} {F : Type 0} (duty_allowed : F → Bool) where
  unfoldable pub validate_carrier : ℤ → F → Api C (Unit {0})
  validate_carrier carrier_hz duty_cycle =
      if ltb_ℤ carrier_hz (pos 0) || ltb_ℤ max_signal_carrier_hz carrier_hz
      then fail 422
      else if eqb_ℤ carrier_hz (pos 0) || duty_allowed duty_cycle
      then pure tt
      else fail 422

module _ {C : Type 0} (decode_utf8 : Bytes → String) (strip_lower : String → String)
    (capabilities : Dict String Bool) where
  unfoldable pub signal_rx : ℤ → SignalRxRequest → Api C (ℤ × ℕ × List Edge)
  signal_rx gpio req = do
    _ ← check_capability capabilities "signal"
    _ ← connected
    edges ←
        asked (
          Service.signal_rx decode_utf8 strip_lower gpio req.timeout_us req.max_edges
            req.resolution)
    pure (gpio, length edges, edges)

  module _ {F : Type 0} (pack_float : F → Result Bytes) (duty_allowed : F → Bool) where
    unfoldable pub signal_tx : ℤ → SignalTxRequest F → Api C (ℤ × ℕ × ℤ × F × ℤ × ℤ)
    signal_tx gpio req = do
      _ ← check_capability capabilities "signal"
      _ ← connected
      _ ← validate_carrier duty_allowed req.carrier_hz req.duty_cycle
      _ ← done (
          Service.signal_tx decode_utf8 strip_lower pack_float gpio req.signal req.delay_us
            req.carrier_hz req.duty_cycle req.repeat req.repeat_gap_us)
      pure (gpio, length req.signal, req.carrier_hz, req.duty_cycle, req.repeat, req.repeat_gap_us)

    unfoldable pub signal_exchange : ℤ → SignalExchangeRequest F → Api C (ℤ × ℕ × ℤ × F × List Edge)
    signal_exchange gpio req = do
      _ ← check_capability capabilities "signal"
      _ ← connected
      _ ← validate_carrier duty_allowed req.carrier_hz req.duty_cycle
      edges ← asked (
          Service.signal_exchange decode_utf8 strip_lower pack_float gpio req.tx_signal req.delay_us
            req.rx_total_us req.rx_max_edges req.carrier_hz req.duty_cycle req.resolution)
      pure (gpio, length edges, req.carrier_hz, req.duty_cycle, edges)

-- `list_signal_resolutions`: the presets and the default.
unfoldable pub list_signal_resolutions : List (String × ℤ) × String
list_signal_resolutions =
    (("exact", pos 1) ∷ ("fine", pos 5) ∷ ("normal", pos 20) ∷ ("coarse", pos 100) ∷ [], "exact")
