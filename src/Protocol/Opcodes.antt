-- ===== src/Protocol/Opcodes.antt =====
-- The opcodes, modes, resource types and error codes of bridge/src/protocol.py.
use rose_esp.Prelude.{ℕ}

abbrev pub msg_type_cmd : ℕ
msg_type_cmd = 0x01

abbrev pub msg_type_ack : ℕ
msg_type_ack = 0x02

abbrev pub msg_type_event : ℕ
msg_type_event = 0x03

abbrev pub msg_type_error : ℕ
msg_type_error = 0x04

abbrev pub cmd_gpio_config : ℕ
cmd_gpio_config = 0x10

abbrev pub cmd_gpio_set : ℕ
cmd_gpio_set = 0x11

abbrev pub cmd_gpio_get : ℕ
cmd_gpio_get = 0x12

abbrev pub cmd_adc_sample : ℕ
cmd_adc_sample = 0x13

abbrev pub cmd_gpio_signal_tx : ℕ
cmd_gpio_signal_tx = 0x14

abbrev pub cmd_gpio_signal_rx : ℕ
cmd_gpio_signal_rx = 0x15

abbrev pub cmd_gpio_signal_exchange : ℕ
cmd_gpio_signal_exchange = 0x16

abbrev pub cmd_uart_config : ℕ
cmd_uart_config = 0x20

abbrev pub cmd_uart_send : ℕ
cmd_uart_send = 0x21

abbrev pub cmd_uart_read : ℕ
cmd_uart_read = 0x22

abbrev pub cmd_port_bind : ℕ
cmd_port_bind = 0x30

abbrev pub cmd_port_unbind : ℕ
cmd_port_unbind = 0x31

abbrev pub cmd_port_status : ℕ
cmd_port_status = 0x32

abbrev pub cmd_thread_passthrough : ℕ
cmd_thread_passthrough = 0x40

abbrev pub cmd_sync_request : ℕ
cmd_sync_request = 0x01

abbrev pub cmd_syn : ℕ
cmd_syn = 0x02

abbrev pub cmd_ble_enable_pairing : ℕ
cmd_ble_enable_pairing = 0x50

abbrev pub cmd_ble_disable_pairing : ℕ
cmd_ble_disable_pairing = 0x51

abbrev pub cmd_ble_get_in_range : ℕ
cmd_ble_get_in_range = 0x52

abbrev pub cmd_ble_start_scan : ℕ
cmd_ble_start_scan = 0x53

abbrev pub cmd_ble_stop_scan : ℕ
cmd_ble_stop_scan = 0x54

abbrev pub cmd_ble_delete_bond : ℕ
cmd_ble_delete_bond = 0x55

abbrev pub cmd_heartbeat : ℕ
cmd_heartbeat = 0xfe

abbrev pub cmd_ping : ℕ
cmd_ping = 0xff

abbrev pub event_sync_response : ℕ
event_sync_response = 0x66

abbrev pub event_cmd_ack : ℕ
event_cmd_ack = 0x20

abbrev pub event_gpio_value : ℕ
event_gpio_value = 0x21

abbrev pub event_gpio_edge : ℕ
event_gpio_edge = 0x22

abbrev pub event_adc_value : ℕ
event_adc_value = 0x23

abbrev pub event_gpio_signal_captured : ℕ
event_gpio_signal_captured = 0x24

abbrev pub event_uart_rx : ℕ
event_uart_rx = 0x30

abbrev pub event_thread_response : ℕ
event_thread_response = 0x40

abbrev pub event_port_status : ℕ
event_port_status = 0x50

abbrev pub event_ble_pairing_enabled : ℕ
event_ble_pairing_enabled = 0x60

abbrev pub event_ble_pairing_disabled : ℕ
event_ble_pairing_disabled = 0x61

abbrev pub event_ble_device_in_range : ℕ
event_ble_device_in_range = 0x62

abbrev pub event_ble_device_out_of_range : ℕ
event_ble_device_out_of_range = 0x63

abbrev pub event_ble_in_range_list : ℕ
event_ble_in_range_list = 0x64

abbrev pub event_ble_rssi : ℕ
event_ble_rssi = 0x65

abbrev pub event_error : ℕ
event_error = 0xfe

abbrev pub event_heartbeat : ℕ
event_heartbeat = 0xfd

abbrev pub event_gpio_status : ℕ
event_gpio_status = 0x51

abbrev pub event_uart_status : ℕ
event_uart_status = 0x31

abbrev pub event_ble_status : ℕ
event_ble_status = 0x67

abbrev pub resource_gpio : ℕ
resource_gpio = 0

abbrev pub resource_uart : ℕ
resource_uart = 1
