-- ===== src/Dispatcher/Commands.antt =====
-- The commands of `CommandDispatcher` (bridge/src/commands.py), one for each opcode. An argument
-- that has a default in the source is written out, and so is the time that `heartbeat` reads.
use rose_esp.Prelude.{Option, List, [], length}
use rose_esp.Prelude.Int.{ℤ, pos}
use rose_esp.Prelude.Result.{Result}
use rose_esp.Struct.{Bytes}
use rose_esp.Protocol.Opcodes.{
  cmd_gpio_config, cmd_gpio_set, cmd_gpio_get, cmd_adc_sample, cmd_gpio_signal_rx, cmd_uart_config,
  cmd_uart_read, cmd_port_bind, cmd_port_unbind, cmd_port_status, cmd_syn, cmd_ble_enable_pairing,
  cmd_ble_disable_pairing, cmd_ble_start_scan, cmd_heartbeat, cmd_sync_request,
  cmd_ble_get_in_range, cmd_ble_stop_scan, cmd_gpio_signal_tx, cmd_gpio_signal_exchange,
  cmd_uart_send, cmd_thread_passthrough, cmd_ble_delete_bond, cmd_ping,
}
use rose_esp.Protocol.Commands.{
  gpio_config_to_bytes, gpio_set_to_bytes, gpio_get_to_bytes, adc_sample_to_bytes,
  gpio_signal_rx_to_bytes, uart_config_to_bytes, uart_read_to_bytes, port_bind_to_bytes,
  port_unbind_to_bytes, port_status_to_bytes, syn_to_bytes, ble_enable_pairing_to_bytes,
  ble_disable_pairing_to_bytes, ble_start_scan_to_bytes, heartbeat_to_bytes, sync_request_to_bytes,
  ble_get_in_range_to_bytes, ble_stop_scan_to_bytes, uart_send_to_bytes,
  thread_passthrough_to_bytes, ble_delete_bond_to_bytes,
}
use rose_esp.Protocol.Commands.Signals.{gpio_signal_tx_to_bytes, gpio_signal_exchange_to_bytes}
use rose_esp.Dispatcher.{CommandDispatcher, send_command, send_encoded}

-- A command's method: its id if it was sent, or the exception that was raised.
abbrev pub Method : Type 0
Method = CommandDispatcher → Result (Option ℤ) × CommandDispatcher

unfoldable pub gpio_config : ℤ → ℤ → ℤ → ℤ → Method
gpio_config gpio mode pull edge =
    send_encoded cmd_gpio_config
      (gpio_config_to_bytes (record { gpio = gpio; mode = mode; pull = pull; edge = edge }))

unfoldable pub gpio_set : ℤ → ℤ → Method
gpio_set gpio value =
    send_encoded cmd_gpio_set (gpio_set_to_bytes (record { gpio = gpio; value = value }))

unfoldable pub gpio_get : ℤ → Method
gpio_get gpio = send_encoded cmd_gpio_get (gpio_get_to_bytes (record { gpio = gpio }))

unfoldable pub adc_sample : ℤ → ℤ → Method
adc_sample gpio samples =
    send_encoded cmd_adc_sample (adc_sample_to_bytes (record { gpio = gpio; samples = samples }))

unfoldable pub gpio_signal_rx : ℤ → ℤ → ℤ → Method
gpio_signal_rx gpio timeout_us max_edges = send_encoded cmd_gpio_signal_rx (
    gpio_signal_rx_to_bytes
      (record { gpio = gpio; timeout_us = timeout_us; max_edges = max_edges }))

unfoldable pub uart_config : ℤ → ℤ → ℤ → ℤ → ℤ → ℤ → ℤ → Method
uart_config uart_id baudrate data_bits parity stop_bits tx_gpio rx_gpio =
    send_encoded cmd_uart_config (
      uart_config_to_bytes (record {
        uart_id = uart_id;
        baudrate = baudrate;
        data_bits = data_bits;
        parity = parity;
        stop_bits = stop_bits;
        tx_gpio = tx_gpio;
        rx_gpio = rx_gpio;
      }))

unfoldable pub uart_read : ℤ → ℤ → Method
uart_read uart_id length_ =
    send_encoded cmd_uart_read (uart_read_to_bytes (record { uart_id = uart_id; length = length_ }))

unfoldable pub port_bind : ℤ → ℤ → ℤ → Method
port_bind resource_type id owner_id =
    send_encoded cmd_port_bind
      (port_bind_to_bytes (record { resource_type = resource_type; id = id; owner_id = owner_id }))

unfoldable pub port_unbind : ℤ → ℤ → Method
port_unbind resource_type id =
    send_encoded cmd_port_unbind
      (port_unbind_to_bytes (record { resource_type = resource_type; id = id }))

unfoldable pub port_status : ℤ → ℤ → Method
port_status resource_type id =
    send_encoded cmd_port_status
      (port_status_to_bytes (record { resource_type = resource_type; id = id }))

unfoldable pub sync_confirm : ℤ → ℤ → Method
sync_confirm correlation_id stage =
    send_encoded cmd_syn (syn_to_bytes (record { correlation_id = correlation_id; stage = stage }))

unfoldable pub ble_enable_pairing : ℤ → Method
ble_enable_pairing timeout_s =
    send_encoded cmd_ble_enable_pairing
      (ble_enable_pairing_to_bytes (record { timeout_s = timeout_s }))

unfoldable pub ble_disable_pairing : ℤ → Method
ble_disable_pairing reason =
    send_encoded cmd_ble_disable_pairing (ble_disable_pairing_to_bytes (record { reason = reason }))

unfoldable pub ble_start_scan : ℤ → Method
ble_start_scan interval_s =
    send_encoded cmd_ble_start_scan (ble_start_scan_to_bytes (record { interval_s = interval_s }))

unfoldable pub heartbeat : ℤ → Method
heartbeat timestamp =
    send_encoded cmd_heartbeat (heartbeat_to_bytes (record { timestamp = timestamp }))

unfoldable pub sync_request : Method
sync_request = send_encoded cmd_sync_request sync_request_to_bytes

unfoldable pub ble_get_in_range : Method
ble_get_in_range = send_encoded cmd_ble_get_in_range ble_get_in_range_to_bytes

unfoldable pub ble_stop_scan : Method
ble_stop_scan = send_encoded cmd_ble_stop_scan ble_stop_scan_to_bytes

unfoldable pub uart_send : ℤ → Bytes → Method
uart_send uart_id content = send_encoded cmd_uart_send (
    uart_send_to_bytes
      (record { uart_id = uart_id; length = pos (length content); content = content }))

unfoldable pub thread_passthrough : ℤ → Bytes → ℤ → Method
thread_passthrough device_id payload correlation_id = send_encoded cmd_thread_passthrough (
    thread_passthrough_to_bytes (record {
      device_id = device_id;
      payload_len = pos (length payload);
      correlation_id = correlation_id;
      payload = payload;
    }))

unfoldable pub ble_delete_bond : Bytes → Method
ble_delete_bond device_mac =
    send_encoded cmd_ble_delete_bond (ble_delete_bond_to_bytes (record { device_mac = device_mac }))

unfoldable pub ping : Method
ping = send_command cmd_ping []

-- `struct.pack('<f', duty_cycle)` is a parameter.
module _ {F : Type 0} (pack_float : F → Result Bytes) where
  unfoldable pub gpio_signal_tx : ℤ → List (ℤ × ℤ) → ℤ → ℤ → F → ℤ → ℤ → Method
  gpio_signal_tx gpio signal_data delay_us carrier_hz duty_cycle repeat repeat_gap_us =
      send_encoded cmd_gpio_signal_tx (
        gpio_signal_tx_to_bytes pack_float (record {
          gpio = gpio;
          signal_len = pos (length signal_data);
          delay_us = delay_us;
          carrier_hz = carrier_hz;
          duty_cycle = duty_cycle;
          repeat = repeat;
          repeat_gap_us = repeat_gap_us;
          signal_data = signal_data;
        }))

  unfoldable pub gpio_signal_exchange : ℤ → List (ℤ × ℤ) → ℤ → ℤ → F → ℤ → ℤ → Method
  gpio_signal_exchange gpio tx_signal delay_us carrier_hz duty_cycle rx_total_us rx_max_edges =
      send_encoded cmd_gpio_signal_exchange (
        gpio_signal_exchange_to_bytes pack_float (record {
          gpio = gpio;
          tx_len = pos (length tx_signal);
          delay_us = delay_us;
          carrier_hz = carrier_hz;
          duty_cycle = duty_cycle;
          rx_total_us = rx_total_us;
          rx_max_edges = rx_max_edges;
          tx_signal_data = tx_signal;
        }))
