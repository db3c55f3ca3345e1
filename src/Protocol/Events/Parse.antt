-- ===== src/Protocol/Events/Parse.antt =====
-- `EventHandler._parse_event` (bridge/src/events.py): the opcode chooses the class.
pub mod Opcode
use Prim.Native.String.{String}
use rose_esp.Prelude.{ℕ, Bool, Option, none, some, List, [], ◌∷◌, ◌==◌, if◌then◌else◌}
use rose_esp.Prelude.Result.{Result, ok, err, ◌>>=◌}
use rose_esp.Struct.{Bytes}
use rose_esp.Protocol.Frame.{MessageFrame}
use rose_esp.Protocol.Opcodes.{
  event_cmd_ack, event_gpio_value, event_gpio_edge, event_adc_value, event_gpio_signal_captured,
  event_uart_rx, event_thread_response, event_sync_response, event_port_status,
  event_ble_pairing_enabled, event_ble_pairing_disabled, event_ble_in_range_list,
  event_ble_device_in_range, event_ble_device_out_of_range, event_ble_rssi, event_heartbeat,
  event_uart_status, event_gpio_status, event_ble_status, event_error,
}
use rose_esp.Protocol.Events.{
  Event, cmd_ack, gpio_value, gpio_edge, adc_value, gpio_signal_captured, uart_rx, thread_response,
  sync_response, port_status, ble_pairing_enabled, ble_pairing_disabled, ble_in_range_list,
  ble_device_in_range, ble_device_out_of_range, ble_rssi, heartbeat, uart_status, gpio_status,
  ble_status, error,
}
use rose_esp.Protocol.Events.Reads.{
  cmd_ack_from_bytes, gpio_value_from_bytes, gpio_edge_from_bytes, adc_value_from_bytes,
  sync_response_from_bytes, port_status_from_bytes, ble_pairing_enabled_from_bytes,
  ble_pairing_disabled_from_bytes, ble_device_in_range_from_bytes,
  ble_device_out_of_range_from_bytes, ble_rssi_from_bytes, heartbeat_from_bytes,
  uart_status_from_bytes, gpio_status_from_bytes, ble_status_from_bytes,
}
use rose_esp.Protocol.Events.Loops.{
  gpio_signal_captured_from_bytes, uart_rx_from_bytes, thread_response_from_bytes,
  ble_in_range_list_from_bytes, error_from_bytes,
}

-- An exception is logged, and no event comes of it.
unfoldable pub caught : {A : Type 0} → (A → Event) → Result A → Option Event
caught make (ok a) = some (make a)
caught make (err e) = none

module _ (decode_utf8 : Bytes → String) where
  unfoldable pub parse_opcode : ℕ → Bytes → Option Event
  parse_opcode opcode bytes =
      if opcode == event_cmd_ack
      then caught cmd_ack (cmd_ack_from_bytes bytes)
      else if opcode == event_gpio_value
      then caught gpio_value (gpio_value_from_bytes bytes)
      else if opcode == event_gpio_edge
      then caught gpio_edge (gpio_edge_from_bytes bytes)
      else if opcode == event_adc_value
      then caught adc_value (adc_value_from_bytes bytes)
      else if opcode == event_gpio_signal_captured
      then caught gpio_signal_captured (gpio_signal_captured_from_bytes bytes)
      else if opcode == event_uart_rx
      then caught uart_rx (uart_rx_from_bytes bytes)
      else if opcode == event_thread_response
      then caught thread_response (thread_response_from_bytes bytes)
      else if opcode == event_sync_response
      then caught sync_response (sync_response_from_bytes bytes)
      else if opcode == event_port_status
      then caught port_status (port_status_from_bytes bytes)
      else if opcode == event_ble_pairing_enabled
      then caught ble_pairing_enabled (ble_pairing_enabled_from_bytes bytes)
      else if opcode == event_ble_pairing_disabled
      then caught ble_pairing_disabled (ble_pairing_disabled_from_bytes bytes)
      else if opcode == event_ble_in_range_list
      then caught ble_in_range_list (ble_in_range_list_from_bytes bytes)
      else if opcode == event_ble_device_in_range
      then caught ble_device_in_range (ble_device_in_range_from_bytes bytes)
      else if opcode == event_ble_device_out_of_range
      then caught ble_device_out_of_range (ble_device_out_of_range_from_bytes bytes)
      else if opcode == event_ble_rssi
      then caught ble_rssi (ble_rssi_from_bytes bytes)
      else if opcode == event_heartbeat
      then caught heartbeat (heartbeat_from_bytes bytes)
      else if opcode == event_uart_status
      then caught uart_status (uart_status_from_bytes bytes)
      else if opcode == event_gpio_status
      then caught gpio_status (gpio_status_from_bytes bytes)
      else if opcode == event_ble_status
      then caught ble_status (ble_status_from_bytes bytes)
      else if opcode == event_error
      then caught error (error_from_bytes decode_utf8 bytes)
      else none

  unfoldable pub parse_payload : Bytes → Option Event
  parse_payload [] = none
  parse_payload (opcode ∷ rest) = parse_opcode opcode rest

  unfoldable pub parse_event : MessageFrame → Option Event
  parse_event frame = parse_payload frame.payload
