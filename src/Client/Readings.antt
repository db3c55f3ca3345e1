-- ===== src/Client/Readings.antt =====
-- What the commands of bridge/src/client.py read from the event that they wait for: the tests by
-- `isinstance`, and the fields that they return.
use rose_esp.Prelude.{Bool, false, Option, none, some, List, map}
use rose_esp.Prelude.Int.{ℤ, eqb_ℤ}
use rose_esp.Struct.{Bytes}
use rose_esp.Protocol.Events.{
  Event, gpio_value, adc_value, gpio_signal_captured, uart_rx, ble_pairing_enabled,
  ble_in_range_list, heartbeat, sync_response, error,
}
use rose_esp.Client.Resolution.{Edge}

-- `isinstance` of the class that a reading command waits for, and the field that it returns.
unfoldable pub gpio_reading : Event → Option ℤ
gpio_reading (gpio_value e) = some e.value
gpio_reading _ = none

unfoldable pub adc_reading : Event → Option ℤ
adc_reading (adc_value e) = some e.value
adc_reading _ = none

unfoldable pub pin_reading : Event → Option Bytes
pin_reading (ble_pairing_enabled e) = some e.pin_code
pin_reading _ = none

unfoldable pub devices_reading : Event → Option (List (Bytes × ℤ))
devices_reading (ble_in_range_list e) = some e.devices
devices_reading _ = none

unfoldable pub sync_reading : Event → Option ℤ
sync_reading (sync_response e) = some e.session_version
sync_reading _ = none

unfoldable pub state_reading : Event → Option ℤ
state_reading (heartbeat e) = some e.connection_state
state_reading _ = none

unfoldable pub captured_edges : Event → Option (List Edge)
captured_edges (gpio_signal_captured e) =
    some (map (λ edge. (edge.level, edge.duration_us)) e.edges)
captured_edges _ = none

unfoldable pub received_bytes : Event → Option Bytes
received_bytes (uart_rx e) = some e.received
received_bytes _ = none

-- The code of an `EventError`.
unfoldable pub device_error : Event → Option ℤ
device_error (error e) = some e.err_code
device_error _ = none

-- The field of a response, if there is a response of the class.
abbrev pub reading : {A : Type 0} → (Event → Option A) → Option Event → Option A
reading read none = none
reading read (some event) = read event

-- `isinstance(e, EventGpioSignalCaptured) and e.gpio == gpio`
abbrev pub captured_on : ℤ → Event → Bool
captured_on gpio (gpio_signal_captured e) = eqb_ℤ e.gpio gpio
captured_on gpio _ = false

-- `isinstance(e, EventUartRx) and e.uart_id == uart_id`
abbrev pub received_on : ℤ → Event → Bool
received_on uart_id (uart_rx e) = eqb_ℤ e.uart_id uart_id
received_on uart_id _ = false
