-- ===== src/Protocol/Events/Reads.antt =====
-- The `from_bytes` of the events with a fixed layout (bridge/src/protocol.py).
use rose_esp.Prelude.{ℕ, List, [], ◌∷◌, length, take, drop, ltb, leb, if◌then◌else◌}
use rose_esp.Prelude.Int.{ℤ, pos}
use rose_esp.Prelude.Result.{Result, ok, err, struct_error, value_error, index_error, ◌>>=◌}
use rose_esp.Struct.{Bytes, Format, u8, u16, u32, u64, s8, s64, unpack}
use rose_esp.Protocol.Frame.{slice}
use rose_esp.Protocol.Events.{
  EventCmdAck, EventGpioValue, EventGpioEdge, EventAdcValue, EventSyncResponse, EventPortStatus,
  EventUartStatus, EventGpioStatus, EventBleStatus, EventHeartbeat, EventBlePairingEnabled,
  EventBlePairingDisabled, EventBleDeviceInRange, EventBleDeviceOutOfRange, EventBleRssi,
}

abbrev pub cmd_ack_format : List Format
cmd_ack_format = u16 ∷ u8 ∷ u8 ∷ u32 ∷ []

unfoldable pub cmd_ack_from_bytes : Bytes → Result EventCmdAck
cmd_ack_from_bytes bytes = unpack cmd_ack_format bytes >>= λ vs. elim vs [
  | cmd_id ∷ status ∷ error_code ∷ correlation_id ∷ [] ↦ ok (record {
    cmd_id = cmd_id;
    status = status;
    error_code = error_code;
    correlation_id = correlation_id;
  })
  | _ ↦ err struct_error
]

abbrev pub gpio_value_format : List Format
gpio_value_format = u16 ∷ u8 ∷ u8 ∷ s64 ∷ []

unfoldable pub gpio_value_from_bytes : Bytes → Result EventGpioValue
gpio_value_from_bytes bytes =
    if ltb (length bytes) 12
    then err value_error
    else (unpack gpio_value_format (take 12 bytes) >>= λ vs. elim vs [
      | cmd_id ∷ gpio ∷ value ∷ timestamp_us ∷ [] ↦
          ok (record { cmd_id = cmd_id; gpio = gpio; value = value; timestamp_us = timestamp_us })
      | _ ↦ err struct_error
    ])

abbrev pub gpio_edge_format : List Format
gpio_edge_format = u8 ∷ u8 ∷ u64 ∷ []

unfoldable pub gpio_edge_from_bytes : Bytes → Result EventGpioEdge
gpio_edge_from_bytes bytes =
    if ltb (length bytes) 10
    then err value_error
    else (unpack gpio_edge_format (take 10 bytes) >>= λ vs. elim vs [
      | gpio ∷ edge_type ∷ timestamp_us ∷ [] ↦
          ok (record { gpio = gpio; edge_type = edge_type; timestamp_us = timestamp_us })
      | _ ↦ err struct_error
    ])

abbrev pub adc_value_format : List Format
adc_value_format = u16 ∷ u8 ∷ u16 ∷ s64 ∷ []

unfoldable pub adc_value_from_bytes : Bytes → Result EventAdcValue
adc_value_from_bytes bytes =
    if ltb (length bytes) 13
    then err value_error
    else (unpack adc_value_format (take 13 bytes) >>= λ vs. elim vs [
      | cmd_id ∷ gpio ∷ value ∷ timestamp_us ∷ [] ↦
          ok (record { cmd_id = cmd_id; gpio = gpio; value = value; timestamp_us = timestamp_us })
      | _ ↦ err struct_error
    ])

abbrev pub sync_response_format : List Format
sync_response_format = u16 ∷ u32 ∷ u16 ∷ u16 ∷ u16 ∷ []

unfoldable pub sync_response_from_bytes : Bytes → Result EventSyncResponse
sync_response_from_bytes bytes = unpack sync_response_format (take 12 bytes) >>= λ vs. elim vs [
  | cmd_id ∷ session_version ∷ pending_cmd_count ∷ pending_thread_count ∷ port_status_count ∷ [] ↦
      ok (record {
        cmd_id = cmd_id;
        session_version = session_version;
        pending_cmd_count = pending_cmd_count;
        pending_thread_count = pending_thread_count;
        port_status_count = port_status_count;
      })
  | _ ↦ err struct_error
]

abbrev pub port_status_format : List Format
port_status_format = u8 ∷ u8 ∷ u8 ∷ u16 ∷ u8 ∷ u8 ∷ []

unfoldable pub port_status_from_bytes : Bytes → Result EventPortStatus
port_status_from_bytes bytes = unpack port_status_format bytes >>= λ vs. elim vs [
  | resource_type ∷ id ∷ mode ∷ owner ∷ in_use ∷ value ∷ [] ↦ ok (record {
    resource_type = resource_type;
    id = id;
    mode = mode;
    owner = owner;
    in_use = in_use;
    value = value;
  })
  | _ ↦ err struct_error
]

abbrev pub uart_status_format : List Format
uart_status_format = u8 ∷ u32 ∷ u8 ∷ u8 ∷ u8 ∷ u8 ∷ u8 ∷ u8 ∷ u16 ∷ []

unfoldable pub uart_status_from_bytes : Bytes → Result EventUartStatus
uart_status_from_bytes bytes = unpack uart_status_format (take 14 bytes) >>= λ vs. elim vs [
  | uart_id ∷ baudrate ∷ data_bits ∷ parity ∷ stop_bits ∷ tx_gpio ∷ rx_gpio ∷ in_use ∷ owner ∷ [] ↦
      ok (record {
        uart_id = uart_id;
        baudrate = baudrate;
        data_bits = data_bits;
        parity = parity;
        stop_bits = stop_bits;
        tx_gpio = tx_gpio;
        rx_gpio = rx_gpio;
        in_use = in_use;
        owner = owner;
      })
  | _ ↦ err struct_error
]

abbrev pub gpio_status_format : List Format
gpio_status_format = u8 ∷ u8 ∷ u8 ∷ u8 ∷ u8 ∷ u8 ∷ u16 ∷ u16 ∷ u16 ∷ []

unfoldable pub gpio_status_from_bytes : Bytes → Result EventGpioStatus
gpio_status_from_bytes bytes = unpack gpio_status_format (take 14 bytes) >>= λ vs. elim vs [
  | gpio ∷ mode ∷ pull ∷ edge ∷ value ∷ in_use ∷ owner ∷ adc_raw ∷ adc_mv ∷ [] ↦ ok (record {
    gpio = gpio;
    mode = mode;
    pull = pull;
    edge = edge;
    value = value;
    in_use = in_use;
    owner = owner;
    adc_raw = adc_raw;
    adc_mv = adc_mv;
  })
  | _ ↦ err struct_error
]

abbrev pub ble_status_format : List Format
ble_status_format = u8 ∷ u8 ∷ u8 ∷ u32 ∷ []

unfoldable pub ble_status_from_bytes : Bytes → Result EventBleStatus
ble_status_from_bytes bytes = unpack ble_status_format (take 7 bytes) >>= λ vs. elim vs [
  | pairing_enabled ∷ scan_enabled ∷ device_count ∷ pairing_timeout_s ∷ [] ↦ ok (record {
    pairing_enabled = pairing_enabled;
    scan_enabled = scan_enabled;
    device_count = device_count;
    pairing_timeout_s = pairing_timeout_s;
  })
  | _ ↦ err struct_error
]

-- `struct.unpack(f, data)[0]`
abbrev pub unpack_one : Format → Bytes → Result ℤ
unpack_one f bytes =
    unpack (f ∷ []) bytes >>= λ vs. elim vs [ v ∷ [] ↦ ok v | _ ↦ err struct_error ]

-- `data[i]`
abbrev pub byte_at : ℕ → Bytes → Result ℤ
byte_at i bytes = elim (drop i bytes) [ [] ↦ err index_error | b ∷ rest ↦ ok (pos b) ]

unfoldable pub ble_pairing_enabled_from_bytes : Bytes → Result EventBlePairingEnabled
ble_pairing_enabled_from_bytes bytes = do
  cmd_id ← unpack_one u16 (take 2 bytes)
  timeout_s ← unpack_one u32 (slice 8 4 bytes)
  ok (record { cmd_id = cmd_id; pin_code = slice 2 6 bytes; timeout_s = timeout_s })

unfoldable pub ble_pairing_disabled_from_bytes : Bytes → Result EventBlePairingDisabled
ble_pairing_disabled_from_bytes [] = err value_error
ble_pairing_disabled_from_bytes (b ∷ rest) = ok (record { reason = pos b })

unfoldable pub ble_device_in_range_from_bytes : Bytes → Result EventBleDeviceInRange
ble_device_in_range_from_bytes bytes = do
  rssi ← unpack_one s8 (slice 6 1 bytes)
  ok (record { device_mac = take 6 bytes; rssi = rssi })

unfoldable pub ble_device_out_of_range_from_bytes : Bytes → Result EventBleDeviceOutOfRange
ble_device_out_of_range_from_bytes bytes = do
  reason ← (if ltb 6 (length bytes) then byte_at 6 bytes else ok (pos 0))
  ok (record { device_mac = take 6 bytes; reason = reason })

unfoldable pub ble_rssi_from_bytes : Bytes → Result EventBleRssi
ble_rssi_from_bytes bytes = unpack (s8 ∷ s64 ∷ []) (slice 6 9 bytes) >>= λ vs. elim vs [
  | rssi ∷ timestamp_us ∷ [] ↦
      ok (record { device_mac = take 6 bytes; rssi = rssi; timestamp_us = timestamp_us })
  | _ ↦ err struct_error
]

-- Old firmware pads the structure to eight bytes.
unfoldable pub heartbeat_from_bytes : Bytes → Result EventHeartbeat
heartbeat_from_bytes bytes =
    if leb 8 (length bytes)
    then (do
      timestamp ← unpack_one u32 (take 4 bytes)
      connection_state ← byte_at 4 bytes
      ok (record { timestamp = timestamp; connection_state = connection_state }))
    else (unpack (u32 ∷ u8 ∷ []) bytes >>= λ vs. elim vs [
      | timestamp ∷ connection_state ∷ [] ↦
          ok (record { timestamp = timestamp; connection_state = connection_state })
      | _ ↦ err struct_error
    ])
