-- ===== src/Protocol/Events/Loops.antt =====
-- The `from_bytes` of the events with a variable part (bridge/src/protocol.py).
pub mod Laws
use Prim.Native.String.{String}
use rose_esp.Prelude.{
  ℕ, zero, suc, ◌+◌, Bool, List, [], ◌∷◌, length, take, drop, ltb, leb, if◌then◌else◌,
}
use rose_esp.Prelude.Int.{ℤ, pos, pos_part}
use rose_esp.Prelude.Result.{Result, ok, err, struct_error, ◌>>=◌}
use rose_esp.Struct.{Bytes, Format, u8, u16, u32, s8, s64, unpack}
use rose_esp.Protocol.Frame.{slice}
use rose_esp.Protocol.Events.{
  SignalEdge, EventGpioSignalCaptured, EventUartRx, EventThreadResponse, EventBleInRangeList,
  EventError,
}
use rose_esp.Protocol.Events.Reads.{unpack_one, byte_at}

-- '<BI'
abbrev pub edge_format : List Format
edge_format = u8 ∷ u32 ∷ []

unfoldable pub edge_from_bytes : Bytes → Result SignalEdge
edge_from_bytes bytes = unpack edge_format bytes >>= λ vs. elim vs [
  | level ∷ duration_us ∷ [] ↦ ok (record { level = level; duration_us = duration_us })
  | _ ↦ err struct_error
]

-- `for i in range(edge_count)`; the bytes are those from `offset` on, so each round drops five.
unfoldable pub read_edges : ℕ → Bytes → Result (List SignalEdge)
read_edges zero bytes = ok []
read_edges (suc n) bytes = edge_from_bytes (take 5 bytes) >>= λ edge.
    read_edges n (drop 5 bytes) >>= λ edges. ok (edge ∷ edges)

unfoldable pub gpio_signal_captured_from_bytes : Bytes → Result EventGpioSignalCaptured
gpio_signal_captured_from_bytes bytes = unpack (u16 ∷ u8 ∷ u16 ∷ s64 ∷ []) (take 13 bytes) >>= λ vs.
    elim vs [
      | cmd_id ∷ gpio ∷ edge_count ∷ timestamp_us ∷ [] ↦
          (read_edges (pos_part edge_count) (drop 13 bytes) >>= λ edges. ok (record {
            cmd_id = cmd_id;
            gpio = gpio;
            edge_count = edge_count;
            timestamp_us = timestamp_us;
            edges = edges;
          }))
      | _ ↦ err struct_error
    ]

unfoldable pub uart_rx_from_bytes : Bytes → Result EventUartRx
uart_rx_from_bytes bytes = unpack (u8 ∷ u16 ∷ s64 ∷ []) (take 11 bytes) >>= λ vs. elim vs [
  | uart_id ∷ length_ ∷ timestamp_us ∷ [] ↦ ok (record {
    uart_id = uart_id;
    length = length_;
    timestamp_us = timestamp_us;
    received = slice 11 (pos_part length_) bytes;
  })
  | _ ↦ err struct_error
]

unfoldable pub thread_response_from_bytes : Bytes → Result EventThreadResponse
thread_response_from_bytes bytes = unpack (u16 ∷ u16 ∷ u32 ∷ s64 ∷ []) (take 16 bytes) >>= λ vs.
    elim vs [
      | device_id ∷ payload_len ∷ correlation_id ∷ timestamp_us ∷ [] ↦ ok (record {
        device_id = device_id;
        payload_len = payload_len;
        correlation_id = correlation_id;
        timestamp_us = timestamp_us;
        payload = slice 16 (pos_part payload_len) bytes;
      })
      | _ ↦ err struct_error
    ]

-- `for _ in range(device_count)`, with the `break` where an entry would pass the end.
unfoldable pub read_devices : ℕ → Bytes → Result (List (Bytes × ℤ))
read_devices zero bytes = ok []
read_devices (suc n) bytes =
    let rest = read_devices n (drop 7 bytes) in
    if ltb (length bytes) 7
    then ok []
    else (unpack_one s8 (slice 6 1 bytes) >>= λ rssi.
        rest >>= λ devices. ok ((take 6 bytes, rssi) ∷ devices))

unfoldable pub ble_in_range_list_from_bytes : Bytes → Result EventBleInRangeList
ble_in_range_list_from_bytes bytes =
    if ltb (length bytes) 3
    then ok (record { cmd_id = pos 0; device_count = pos 0; devices = [] })
    else (do
      cmd_id ← unpack_one u16 (take 2 bytes)
      device_count ← byte_at 2 bytes
      devices ← read_devices (pos_part device_count) (drop 3 bytes)
      ok (record { cmd_id = cmd_id; device_count = device_count; devices = devices }))

-- `bytes.decode('utf-8', errors='ignore')` is a parameter.
module _ (decode_utf8 : Bytes → String) where
  unfoldable pub error_from_bytes : Bytes → Result EventError
  error_from_bytes bytes =
      if leb 4 (length bytes)
      then (unpack (u16 ∷ u8 ∷ u8 ∷ []) (take 4 bytes) >>= λ vs. elim vs [
        | cmd_id ∷ status ∷ err_code ∷ [] ↦
            ok (record {
              cmd_id = cmd_id;
              err_code = err_code;
              message = decode_utf8 (drop 4 bytes);
            })
        | _ ↦ err struct_error
      ])
      else (unpack (u16 ∷ u8 ∷ []) (take 3 bytes) >>= λ vs. elim vs [
        | cmd_id ∷ err_code ∷ [] ↦
            ok (record {
              cmd_id = cmd_id;
              err_code = err_code;
              message = decode_utf8 (drop 3 bytes);
            })
        | _ ↦ err struct_error
      ])
