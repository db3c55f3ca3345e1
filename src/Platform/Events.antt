-- ===== src/Platform/Events.antt =====
-- The conversion of the bridge's events in platform/src/services/bridge_service.py. Base 64 and
-- the strict decoding of UTF-8 are parameters.
use Prim.Native.String.{String, slice, ◌++◌ as ◌<>◌}
use rose_esp.Prelude.{
  ℕ, ◌+◌, ◌/◌, ◌%◌, Option, none, some, List, [], ◌∷◌, map, length, take, ltb, if◌then◌else◌,
}
use rose_esp.Prelude.Int.{pos}
use rose_esp.Struct.{Bytes}
use rose_esp.Protocol.Opcodes.{
  event_cmd_ack, event_gpio_value, event_gpio_edge, event_adc_value, event_gpio_signal_captured,
  event_uart_rx, event_sync_response, event_port_status, event_ble_pairing_enabled,
  event_ble_pairing_disabled, event_ble_in_range_list, event_ble_device_in_range,
  event_ble_device_out_of_range, event_ble_rssi, event_heartbeat, event_uart_status,
  event_gpio_status, event_ble_status, event_error,
}
use rose_esp.Protocol.Events.{
  Event, cmd_ack, gpio_value, gpio_edge, adc_value, gpio_signal_captured, uart_rx, thread_response,
  sync_response, port_status, ble_pairing_enabled, ble_pairing_disabled, ble_in_range_list,
  ble_device_in_range, ble_device_out_of_range, ble_rssi, heartbeat, uart_status, gpio_status,
  ble_status, error,
}
use rose_esp.Handler.{EventHandler, register_callback}
use rose_esp.Platform.Values.{number, string, edges, devices, Record}

-- `f"{b:02x}"`
unfoldable pub hex_byte : ℕ → String
hex_byte b =
    slice "0123456789abcdef" (b / 16) (b / 16 + 1) <> slice "0123456789abcdef" (b % 16) (b % 16 + 1)

abbrev reverse : Bytes → Bytes → Bytes
reverse [] acc = acc
reverse (b ∷ bs) acc = reverse bs (b ∷ acc)

abbrev join_colons : Bytes → String
join_colons [] = ""
join_colons (b ∷ []) = hex_byte b
join_colons (b ∷ c ∷ bs) = hex_byte b <> ":" <> join_colons (c ∷ bs)

unfoldable pub format_mac : Bytes → String
format_mac raw = if ltb (length raw) 6 then "" else join_colons (reverse (take 6 raw) [])

-- The opcodes that `start_bridge` registers a callback for, with the type's name.
abbrev pub registrations : List (ℕ × String)
registrations =
    (event_gpio_value, "gpio_value")
    ∷ (event_gpio_edge, "gpio_edge")
    ∷ (event_adc_value, "adc_value")
    ∷ (event_gpio_signal_captured, "signal_captured")
    ∷ (event_uart_rx, "uart_rx")
    ∷ (event_uart_status, "uart_status")
    ∷ (event_gpio_status, "gpio_status")
    ∷ (event_ble_status, "ble_status")
    ∷ (event_port_status, "port_status")
    ∷ (event_ble_pairing_enabled, "ble_pairing_enabled")
    ∷ (event_ble_pairing_disabled, "ble_pairing_disabled")
    ∷ (event_ble_device_in_range, "ble_device_in_range")
    ∷ (event_ble_device_out_of_range, "ble_device_out_of_range")
    ∷ (event_ble_in_range_list, "ble_in_range_list")
    ∷ (event_ble_rssi, "ble_rssi")
    ∷ (event_heartbeat, "heartbeat")
    ∷ (event_error, "error")
    ∷ (event_cmd_ack, "cmd_ack")
    ∷ (event_sync_response, "sync_response")
    ∷ []

-- The registrations of `start_bridge`, in order; `wrap` is `make_callback`.
unfoldable pub register_all :
    {C : Type 0} → (String → C) → List (ℕ × String) → EventHandler C → EventHandler C
register_all wrap [] h = h
register_all wrap ((opcode, event_type) ∷ rest) h =
    register_all wrap rest (register_callback opcode (wrap event_type) h)

module _ (base64 : Bytes → String) (decode_strict : Bytes → Option String) where
  -- `_event_to_dict`, for an event of the class that its type's name is registered for. `None`
  -- where the conversion raises, and for a class that has no branch.
  unfoldable pub event_to_dict : Event → Option Record
  event_to_dict (gpio_value e) = some (
      ("gpio", number e.gpio)
      ∷ ("value", number e.value)
      ∷ ("timestamp_us", number e.timestamp_us)
      ∷ [])
  event_to_dict (gpio_edge e) = some (
      ("gpio", number e.gpio)
      ∷ ("edge_type", number e.edge_type)
      ∷ ("timestamp_us", number e.timestamp_us)
      ∷ [])
  event_to_dict (adc_value e) = some (
      ("gpio", number e.gpio)
      ∷ ("value", number e.value)
      ∷ ("timestamp_us", number e.timestamp_us)
      ∷ [])
  event_to_dict (gpio_signal_captured e) = some (
      ("gpio", number e.gpio)
      ∷ ("edge_count", number e.edge_count)
      ∷ ("edges", edges (map (λ x. (x.level, x.duration_us)) e.edges))
      ∷ ("timestamp_us", number e.timestamp_us)
      ∷ [])
  event_to_dict (uart_rx e) =
      some (("uart_id", number e.uart_id) ∷ ("data_base64", string (base64 e.received)) ∷ [])
  event_to_dict (port_status e) = some (
      ("resource_type", number e.resource_type)
      ∷ ("id", number e.id)
      ∷ ("in_use", number e.in_use)
      ∷ ("mode", number e.mode)
      ∷ ("value", number e.value)
      ∷ [])
  event_to_dict (ble_pairing_enabled e) = elim (decode_strict e.pin_code) [
    | none ↦ none
    | some pin ↦ some (("pin_code", string pin) ∷ ("timeout_s", number e.timeout_s) ∷ [])
  ]
  event_to_dict (ble_pairing_disabled e) = some (("reason", number e.reason) ∷ [])
  event_to_dict (ble_device_in_range e) =
      some (("mac", string (format_mac e.device_mac)) ∷ ("rssi", number e.rssi) ∷ [])
  event_to_dict (ble_device_out_of_range e) =
      some (("mac", string (format_mac e.device_mac)) ∷ ("reason", number e.reason) ∷ [])
  event_to_dict (ble_in_range_list e) = some (
      ("devices", devices (map (λ d. (format_mac d.0, d.1)) e.devices))
      ∷ ("device_count", number (pos (length e.devices)))
      ∷ [])
  event_to_dict (ble_rssi e) =
      some (("mac", string (format_mac e.device_mac)) ∷ ("rssi", number e.rssi) ∷ [])
  event_to_dict (heartbeat e) = some (("connection_state", number e.connection_state) ∷ [])
  -- `EventError` has no attribute `error_code`, so its default stands.
  event_to_dict (error e) =
      some (("error_code", number (pos 0)) ∷ ("message", string e.message) ∷ [])
  event_to_dict (cmd_ack e) = some (
      ("cmd_id", number e.cmd_id)
      ∷ ("status", number e.status)
      ∷ ("error_code", number e.error_code)
      ∷ [])
  event_to_dict (sync_response e) = some (
      ("session_version", number e.session_version)
      ∷ ("port_status_count", number e.port_status_count)
      ∷ [])
  event_to_dict (uart_status e) = some (
      ("uart_id", number e.uart_id)
      ∷ ("baudrate", number e.baudrate)
      ∷ ("data_bits", number e.data_bits)
      ∷ ("parity", number e.parity)
      ∷ ("stop_bits", number e.stop_bits)
      ∷ ("tx_gpio", number e.tx_gpio)
      ∷ ("rx_gpio", number e.rx_gpio)
      ∷ ("in_use", number e.in_use)
      ∷ ("owner", number e.owner)
      ∷ [])
  event_to_dict (gpio_status e) = some (
      ("gpio", number e.gpio)
      ∷ ("mode", number e.mode)
      ∷ ("pull", number e.pull)
      ∷ ("edge", number e.edge)
      ∷ ("value", number e.value)
      ∷ ("in_use", number e.in_use)
      ∷ ("owner", number e.owner)
      ∷ ("adc_raw", number e.adc_raw)
      ∷ ("adc_mv", number e.adc_mv)
      ∷ [])
  event_to_dict (ble_status e) = some (
      ("pairing_enabled", number e.pairing_enabled)
      ∷ ("scan_enabled", number e.scan_enabled)
      ∷ ("device_count", number e.device_count)
      ∷ ("pairing_timeout_s", number e.pairing_timeout_s)
      ∷ [])
  event_to_dict (thread_response e) = none

  -- The callback of `make_callback`: what it passes on to the platform, if anything.
  unfoldable pub forwarded : String → Event → Option Record
  forwarded event_type event = elim (event_to_dict event) [
    | none ↦ none
    | some d ↦ some (("type", string event_type) ∷ d)
  ]
