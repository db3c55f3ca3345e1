-- ===== src/Client/Operations.antt =====
-- The commands of `IoTAgentClient` (bridge/src/client.py). Each takes, besides its arguments, the
-- frames that arrive during each of its waits; a timeout is the number of polls. What is computed
-- for a timeout only is left out.
pub mod Laws
use Prim.Native.String.{String}
use rose_esp.Prelude.{ℕ, Bool, true, false, Option, none, some, List, map, take, if◌then◌else◌}
use rose_esp.Prelude.Int.{ℤ, pos, eqb_ℤ}
use rose_esp.Prelude.Eq.{nat_eq, int_eq}
use rose_esp.Prelude.Dict.{get}
use rose_esp.Prelude.Result.{Result}
use rose_esp.Struct.{Bytes}
use rose_esp.Protocol.Opcodes.{
  resource_gpio, resource_uart, event_gpio_signal_captured, event_uart_rx, event_heartbeat,
}
use rose_esp.Protocol.Events.{
  Event, gpio_value, adc_value, gpio_signal_captured, uart_rx, ble_pairing_enabled,
  ble_in_range_list, heartbeat, sync_response, error,
}
use rose_esp.Handler.{
  wait_for_response, wait_for_response_of_type, wait_for_event, wait_for_event_matching,
  wait_for_capture_or_error,
}
use rose_esp.Dispatcher.Commands
use rose_esp.Dispatcher.Commands.{Method}
use rose_esp.Server.Connection.Laws.{is_some}
use rose_esp.Client.Resolution.{Edge, Resolution, resolve_resolution_us, apply_resolution}
use rose_esp.Client.Readings.{
  gpio_reading, adc_reading, pin_reading, devices_reading, sync_reading, state_reading,
  captured_edges, received_bytes, device_error, reading, captured_on, received_on,
}
use rose_esp.Client.Session.{
  Arrivals, Op, pure, ◌>>=◌, send, await, await_ack, finish, set_error, acked, add_listener,
  read_listener,
}

-- The edges of a capture, filtered.
unfoldable pub filtered : (String → String) → Resolution → Option Event → Option (List Edge)
filtered strip_lower resolution response = elim (reading captured_edges response) [
  | none ↦ none
  | some edges ↦ some (apply_resolution edges (resolve_resolution_us strip_lower resolution))
]

module _ {C : Type 0} where
  -- Nothing is tried again after a success, or if the command could not be sent.
  unfoldable pub unless : Option ℤ → Bool → Op C Bool → Op C Bool
  unless none done second = pure false
  unless (some cmd_id) done second = if done then pure true else second

module _ {C : Type 0} (decode_utf8 : Bytes → String) where
  -- `if unbind_id is not None: self.events.wait_for_response(unbind_id)`
  unfoldable pub drain : Arrivals → Option ℤ → Op C (Option Event)
  drain arrivals none = pure none
  drain arrivals (some cmd_id) = await (wait_for_response decode_utf8 cmd_id arrivals)

  unfoldable pub retry : Arrivals → Option ℤ → Op C Bool
  retry arrivals none = pure false
  retry arrivals (some cmd_id) = await_ack decode_utf8 cmd_id arrivals

  -- The second half of `configure_gpio` and `configure_uart`: what the device holds is unbound,
  -- whatever it answers, and the command is tried once more.
  unfoldable pub try_again : Method → Method → Arrivals → Arrivals → Op C Bool
  try_again unbind method unbinding again = do
    unbind_id ← send unbind
    _ ← drain unbinding unbind_id
    retry_cmd_id ← send method
    retry again retry_cmd_id

  unfoldable pub configure_gpio : ℤ → ℤ → ℤ → ℤ → Arrivals → Arrivals → Arrivals → Op C Bool
  configure_gpio gpio mode pull edge first unbinding again = do
    cmd_id ← send (Commands.gpio_config gpio mode pull edge)
    done ← finish decode_utf8 first cmd_id
    unless cmd_id done (
        try_again (Commands.port_unbind (pos resource_gpio) gpio)
          (Commands.gpio_config gpio mode pull edge) unbinding again)

  unfoldable pub set_gpio : ℤ → ℤ → Arrivals → Op C Bool
  set_gpio gpio value = acked decode_utf8 (Commands.gpio_set gpio value)

  unfoldable pub send_uart : ℤ → Bytes → Arrivals → Op C Bool
  send_uart uart_id data_ = acked decode_utf8 (Commands.uart_send uart_id data_)

  unfoldable pub disable_ble_pairing : Arrivals → Op C Bool
  disable_ble_pairing = acked decode_utf8 (Commands.ble_disable_pairing (pos 0))

  unfoldable pub start_ble_scan : ℤ → Arrivals → Op C Bool
  start_ble_scan interval_s = acked decode_utf8 (Commands.ble_start_scan interval_s)

  unfoldable pub stop_ble_scan : Arrivals → Op C Bool
  stop_ble_scan = acked decode_utf8 Commands.ble_stop_scan

  unfoldable pub delete_ble_bond : Bytes → Arrivals → Op C Bool
  delete_ble_bond device_mac = acked decode_utf8 (Commands.ble_delete_bond device_mac)

  unfoldable pub ping : Arrivals → Op C Bool
  ping = acked decode_utf8 Commands.ping

  unfoldable pub confirm_sync : ℤ → ℤ → Arrivals → Op C Bool
  confirm_sync correlation_id stage = acked decode_utf8 (Commands.sync_confirm correlation_id stage)

  -- A command whose answer is an event of one class with the command's id.
  module _ {A : Type 0} (read : Event → Option A) where
    unfoldable pub asked : Arrivals → Option ℤ → Op C (Option A)
    asked arrivals none = pure none
    asked arrivals (some cmd_id) = do
      response ←
          await (wait_for_response_of_type decode_utf8 cmd_id (λ e. is_some (read e)) arrivals)
      pure (reading read response)

    unfoldable pub ask : Method → Arrivals → Op C (Option A)
    ask method arrivals = send method >>= asked arrivals

  unfoldable pub get_gpio : ℤ → Arrivals → Op C (Option ℤ)
  get_gpio gpio = ask gpio_reading (Commands.gpio_get gpio)

  unfoldable pub read_adc : ℤ → ℤ → Arrivals → Op C (Option ℤ)
  read_adc gpio samples = ask adc_reading (Commands.adc_sample gpio samples)

  unfoldable pub enable_ble_pairing : ℤ → Arrivals → Op C (Option Bytes)
  enable_ble_pairing timeout_s = ask pin_reading (Commands.ble_enable_pairing timeout_s)

  unfoldable pub get_ble_in_range : Arrivals → Op C (Option (List (Bytes × ℤ)))
  get_ble_in_range = ask devices_reading Commands.ble_get_in_range

  unfoldable pub request_sync : Arrivals → Op C (Option ℤ)
  request_sync = ask sync_reading Commands.sync_request

  -- `timestamp` is the time that the dispatcher's `heartbeat` reads.
  unfoldable pub heartbeat_state : ℤ → Arrivals → Op C (Option ℤ)
  heartbeat_state timestamp arrivals = do
    cmd_id ← send (Commands.heartbeat timestamp)
    elim cmd_id [
      | none ↦ pure none
      | some _ ↦ do
        response ← await (wait_for_event decode_utf8 event_heartbeat arrivals)
        pure (reading state_reading response)
    ]

  -- `configure_uart` returns the listener that it made.
  unfoldable pub configure_uart :
      ℤ → ℤ → ℤ → ℤ → ℤ → ℤ → ℤ → Arrivals → Arrivals → Arrivals → Op C (Option ℕ)
  configure_uart uart_id baudrate tx_gpio rx_gpio data_bits parity stop_bits first unbinding again =
      configured uart_id
        (Commands.uart_config uart_id baudrate data_bits parity stop_bits tx_gpio rx_gpio) first
        unbinding again
    where
      listen : ℤ → Bool → Op C (Option ℕ)
      listen uart_id true = add_listener uart_id >>= λ listener. pure (some listener)
      listen uart_id false = pure none

      configured : ℤ → Method → Arrivals → Arrivals → Arrivals → Op C (Option ℕ)
      configured uart_id method first unbinding again = do
        cmd_id ← send method
        elim cmd_id [
          | none ↦ pure none
          | some id ↦ do
            done ← await_ack decode_utf8 id first
            elim done [
              | true ↦ listen uart_id true
              | false ↦
                  try_again (Commands.port_unbind (pos resource_uart) uart_id) method unbinding
                    again
                  >>= listen uart_id
            ]
        ]

  -- `read_uart`, for a length that is not negative.
  unfoldable pub read_uart : ℤ → ℕ → Arrivals → Op C (Option Bytes)
  read_uart uart_id length_ arrivals c = elim (get c.uart_listeners uart_id) [
    | some listener ↦
        (read_listener listener >>= λ received.
        pure (elim received [ none ↦ none | some bytes ↦ some (take length_ bytes) ]))
          c
    | none ↦
        (send (Commands.uart_read uart_id (pos length_)) >>= λ cmd_id. elim cmd_id [
          | none ↦ pure none
          | some _ ↦ do
            response ←
                await
                  (wait_for_event_matching decode_utf8 event_uart_rx (received_on uart_id) arrivals)
            pure (reading received_bytes response)
        ])
          c
  ]

  module _ (strip_lower : String → String) where
    unfoldable pub receive_signal : ℤ → ℤ → ℤ → Resolution → Arrivals → Op C (Option (List Edge))
    receive_signal gpio timeout_us max_edges resolution arrivals = do
      cmd_id ← send (Commands.gpio_signal_rx gpio timeout_us max_edges)
      elim cmd_id [
        | none ↦ pure none
        | some _ ↦ do
          response ← await (
              wait_for_event_matching decode_utf8 event_gpio_signal_captured (captured_on gpio)
                arrivals)
          pure (filtered strip_lower resolution response)
      ]

    -- `struct.pack('<f', duty_cycle)` is a parameter.
    module _ {F : Type 0} (pack_float : F → Result Bytes) where
      unfoldable pub send_signal : ℤ → List (ℤ × ℤ) → ℤ → ℤ → F → ℤ → ℤ → Arrivals → Op C Bool
      send_signal gpio signal delay_us carrier_hz duty_cycle repeat repeat_gap_us =
          acked decode_utf8 (
            Commands.gpio_signal_tx pack_float gpio signal delay_us carrier_hz duty_cycle repeat
              repeat_gap_us)

      unfoldable pub exchange_signals :
          ℤ → List (ℤ × ℤ) → ℤ → ℤ → F → ℤ → ℤ → Resolution → Arrivals → Op C (Option (List Edge))
      exchange_signals gpio tx_signal delay_us carrier_hz duty_cycle rx_total_us rx_max_edges
            resolution arrivals =
          do
            cmd_id ← send (
                Commands.gpio_signal_exchange pack_float gpio tx_signal delay_us carrier_hz
                  duty_cycle rx_total_us rx_max_edges)
            elim cmd_id [
              | none ↦ pure none
              | some id ↦ do
                _ ← set_error none
                response ← await (
                    wait_for_capture_or_error decode_utf8 event_gpio_signal_captured id
                      (captured_on gpio) arrivals)
                _ ← elim (reading device_error response) [
                  | none ↦ pure tt
                  | some code ↦ set_error (some code)
                ]
                pure (filtered strip_lower resolution response)
            ]
