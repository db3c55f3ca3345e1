-- ===== src/Platform/Schemas.antt =====
-- The bounds of the requests: the constrained fields of platform/src/models/schemas.py. Pydantic
-- refuses a request for which its test here is false. A float is abstract: `duty_allowed` is the
-- test `0.0 < duty_cycle <= 1.0`.
use rose_esp.Prelude.{ℕ, ◌-◌, ◌+◌, ◌*◌, Bool, true, ◌&&◌, not, List, [], ◌∷◌, leb, length}
use rose_esp.Prelude.Int.{ℤ, pos, pos_part, ltb_ℤ}
use rose_esp.Client.Resolution.{Edge, Resolution}

-- `ge=bottom`, and `ge=bottom, le=top`
abbrev pub at_least : ℕ → ℤ → Bool
at_least bottom n = not (ltb_ℤ n (pos bottom))

abbrev pub between : ℕ → ℕ → ℤ → Bool
between bottom top n = at_least bottom n && not (ltb_ℤ (pos top) n)

-- `GpioConfigRequest`, for `mode`, `pull` and `edge`
unfoldable pub gpio_config_request : ℤ → ℤ → ℤ → Bool
gpio_config_request mode pull edge = between 0 5 mode && (between 0 2 pull && between 0 3 edge)

unfoldable pub gpio_set_request : ℤ → Bool
gpio_set_request value = between 0 1 value

unfoldable pub adc_sample_request : ℤ → Bool
adc_sample_request samples = between 1 16 samples

-- `SignalEdge`
unfoldable pub signal_edge : Edge → Bool
signal_edge (level, duration_us) = between 0 1 level && between 1 32767 duration_us

unfoldable pub signal_edges : List Edge → Bool
signal_edges [] = true
signal_edges (edge ∷ signal) = signal_edge edge && signal_edges signal

-- `list[SignalEdge] = Field(..., max_length=256)`
unfoldable pub signal_field : List Edge → Bool
signal_field signal = signal_edges signal && leb (length signal) 256

pub record SignalTxRequest (F : Type 0) : Type 0 where
  pub signal : List Edge
  pub delay_us : ℤ
  pub carrier_hz : ℤ
  pub duty_cycle : F
  pub repeat : ℤ
  pub repeat_gap_us : ℤ

pub record SignalRxRequest : Type 0 where
  pub timeout_us : ℤ
  pub max_edges : ℤ
  pub resolution : Resolution

pub record SignalExchangeRequest (F : Type 0) : Type 0 where
  pub tx_signal : List Edge
  pub delay_us : ℤ
  pub carrier_hz : ℤ
  pub duty_cycle : F
  pub rx_total_us : ℤ
  pub rx_max_edges : ℤ
  pub resolution : Resolution

-- The sum of the durations, which were found to be at least 1.
unfoldable pub duration : List Edge → ℕ
duration [] = 0
duration ((level, duration_us) ∷ signal) = pos_part duration_us + duration signal

-- `total_us` of `validate_total_duration`, where `repeat` was found to be at least 1
unfoldable pub total_us : {F : Type 0} → SignalTxRequest F → ℕ
total_us req =
    duration req.signal * pos_part req.repeat
    + pos_part req.repeat_gap_us * (pos_part req.repeat - 1)

module _ {F : Type 0} (duty_allowed : F → Bool) where
  unfoldable pub signal_tx_request : SignalTxRequest F → Bool
  signal_tx_request req =
      signal_field req.signal
      && (at_least 0 req.delay_us
          && (between 0 500000 req.carrier_hz
              && (duty_allowed req.duty_cycle
                  && (between 1 100 req.repeat
                      && (between 0 100000 req.repeat_gap_us && leb (total_us req) 30000000)))))

  unfoldable pub signal_exchange_request : SignalExchangeRequest F → Bool
  signal_exchange_request req =
      signal_field req.tx_signal
      && (at_least 0 req.delay_us
          && (between 0 500000 req.carrier_hz
              && (duty_allowed req.duty_cycle
                  && (at_least 1 req.rx_total_us && between 1 256 req.rx_max_edges))))

unfoldable pub signal_rx_request : SignalRxRequest → Bool
signal_rx_request req = at_least 1 req.timeout_us && between 1 256 req.max_edges

-- `UartConfigRequest`, for its constrained fields
unfoldable pub uart_config_request : ℤ → ℤ → ℤ → ℤ → Bool
uart_config_request baudrate data_bits parity stop_bits =
    at_least 300 baudrate
    && (between 5 8 data_bits && (between 0 2 parity && between 1 2 stop_bits))

-- `PortBindRequest` and `PortUnbindRequest`
unfoldable pub port_request : ℤ → Bool
port_request resource_type = between 0 1 resource_type

unfoldable pub ble_pairing_enable_request : ℤ → Bool
ble_pairing_enable_request timeout_s = at_least 1 timeout_s

unfoldable pub ble_scan_start_request : ℤ → Bool
ble_scan_start_request interval_s = at_least 1 interval_s

unfoldable pub sync_confirm_request : ℤ → Bool
sync_confirm_request stage = at_least 0 stage
