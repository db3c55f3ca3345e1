-- ===== src/Protocol/Commands/Signals.antt =====
-- The commands that carry a signal, a list of levels and durations (bridge/src/protocol.py). A
-- Python `float` is a value of an abstract type, and `struct.pack('<f', …)` on it is a parameter.
use rose_esp.Prelude.{List, [], ◌∷◌, ◌++◌}
use rose_esp.Prelude.Int.{ℤ}
use rose_esp.Prelude.Result.{Result, ok, ◌>>=◌}
use rose_esp.Struct.{Bytes, u8, u16, u32, pack}
use rose_esp.Protocol.Events.Loops.{edge_format}

pub record CmdGpioSignalTx (F : Type 0) : Type 0 where
  pub gpio : ℤ
  pub signal_len : ℤ
  pub delay_us : ℤ
  pub carrier_hz : ℤ
  pub duty_cycle : F
  pub repeat : ℤ
  pub repeat_gap_us : ℤ
  pub signal_data : List (ℤ × ℤ)

pub record CmdGpioSignalExchange (F : Type 0) : Type 0 where
  pub gpio : ℤ
  pub tx_len : ℤ
  pub delay_us : ℤ
  pub carrier_hz : ℤ
  pub duty_cycle : F
  pub rx_total_us : ℤ
  pub rx_max_edges : ℤ
  pub tx_signal_data : List (ℤ × ℤ)

-- `for level, duration in …: data += struct.pack('<BI', level, duration)`
unfoldable pub signal_bytes : List (ℤ × ℤ) → Result Bytes
signal_bytes [] = ok []
signal_bytes ((level, duration) ∷ signal) = pack edge_format (level ∷ duration ∷ []) >>= λ edge.
    signal_bytes signal >>= λ rest. ok (edge ++ rest)

module _ {F : Type 0} (pack_float : F → Result Bytes) where
  unfoldable pub gpio_signal_tx_to_bytes : CmdGpioSignalTx F → Result Bytes
  gpio_signal_tx_to_bytes c = do
    head ← pack (u8 ∷ u16 ∷ u32 ∷ u32 ∷ []) (c.gpio ∷ c.signal_len ∷ c.delay_us ∷ c.carrier_hz ∷ [])
    duty ← pack_float c.duty_cycle
    tail ← pack (u16 ∷ u32 ∷ []) (c.repeat ∷ c.repeat_gap_us ∷ [])
    signal ← signal_bytes c.signal_data
    ok ((head ++ (duty ++ tail)) ++ signal)

  unfoldable pub gpio_signal_exchange_to_bytes : CmdGpioSignalExchange F → Result Bytes
  gpio_signal_exchange_to_bytes c = do
    head ← pack (u8 ∷ u16 ∷ u32 ∷ u32 ∷ []) (c.gpio ∷ c.tx_len ∷ c.delay_us ∷ c.carrier_hz ∷ [])
    duty ← pack_float c.duty_cycle
    tail ← pack (u32 ∷ u16 ∷ []) (c.rx_total_us ∷ c.rx_max_edges ∷ [])
    signal ← signal_bytes c.tx_signal_data
    ok ((head ++ (duty ++ tail)) ++ signal)
