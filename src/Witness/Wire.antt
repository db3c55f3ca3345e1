-- ===== src/Witness/Wire.antt =====
-- Tests of frames, checksums and commands on the wire.
use rose_esp.Prelude.{
  ℕ, zero, suc, ◌≡◌, ◌≢◌, ◌≤◌, ◌<◌, refl, arith, All, some, [], ◌∷◌, ◌++◌, length,
}
use rose_esp.Prelude.Int.{pos}
use rose_esp.Prelude.Result.{ok, err, struct_error}
use rose_esp.Struct.{Bytes, IsByte, pack, encode, unsigned, le_bytes, unpack, fields, decode, of_le}
use rose_esp.Protocol.Crc.{crc_loop, crc_bits, crc_bit}
use rose_esp.Protocol.Frame.{MessageFrame, to_bytes, from_bytes, calculate_crc}
use rose_esp.Protocol.Frame.RoundTrip.{from_bytes-to_bytes, to_bytes-from_bytes}
use rose_esp.Protocol.Frame.Checksum.{crc_format, crc_fields, calculate_crc_residue}
use rose_esp.Dispatcher.{following, get_next_cmd_id, send_command}
use rose_esp.Dispatcher.Ids.{IsCmdId, after, get_next_cmd_id-fresh}
use rose_esp.Dispatcher.Wire.{IsCommandFrame, send_command-IsCommandFrame, send_command_oversized}
use rose_esp.Witness.Data.{ack_frame, ack_bytes, connected, connected_server}

ack_written : to_bytes ack_frame ≡ ok ack_bytes
unfolding to_bytes pack encode unsigned le_bytes
ack_written = refl

ack_read : from_bytes ack_bytes ≡ ok ack_frame
unfolding from_bytes unpack fields decode of_le
ack_read = refl

from_bytes-to_bytes_example : from_bytes (ack_bytes ++ 5 ∷ []) ≡ ok ack_frame
from_bytes-to_bytes_example = from_bytes-to_bytes ack_frame (5 ∷ []) refl ack_written

ack_IsByte : All IsByte ack_bytes
ack_IsByte = ground arith

to_bytes-from_bytes_example : to_bytes ack_frame ≡ ok ack_bytes
to_bytes-from_bytes_example = to_bytes-from_bytes ack_bytes ack_IsByte ack_read refl

ack_crc : calculate_crc ack_frame ≡ ok (pos 47710)
unfolding calculate_crc pack encode unsigned le_bytes crc_loop crc_bits crc_bit
ack_crc = refl

calculate_crc_residue_example :
    (header : Bytes) × (c : ℕ) × (pack crc_format (crc_fields ack_frame) ≡ ok header)
    × (pos 47710 ≡ pos c)
    × (c < 65536)
    × (crc_loop 0xFFFF ((header ++ ack_frame.payload) ++ le_bytes 2 c) ≡ 0)
calculate_crc_residue_example = calculate_crc_residue ack_frame (ground arith) ack_crc

get_next_cmd_id-fresh_example :
    IsCmdId (get_next_cmd_id (after 3 connected)).0
    × (1 ≤ 3 → 3 < 65535 → (get_next_cmd_id (after 3 connected)).0 ≢ (get_next_cmd_id connected).0)
    × ((get_next_cmd_id (after 65535 connected)).0 ≡ (get_next_cmd_id connected).0)
get_next_cmd_id-fresh_example = get_next_cmd_id-fresh connected 3 (omega arith, omega arith)

send_command-IsCommandFrame_example :
    (f : MessageFrame) × (bytes : Bytes) × (send_command 0x11 (5 ∷ 1 ∷ []) connected ≡ (
      ok (some (pos 65534)),
      record {
        next_cmd_id = following 65534;
        server = record connected_server { sent = (4, bytes) ∷ [] };
        writes = [];
      },
    ))
    × (from_bytes (bytes ++ 9 ∷ []) ≡ ok f)
    × IsCommandFrame 0x11 (5 ∷ 1 ∷ []) 65534 f
send_command-IsCommandFrame_example =
    send_command-IsCommandFrame 0x11 (5 ∷ 1 ∷ []) (9 ∷ []) 4 connected (omega arith) (omega arith)
      (ground arith) (omega arith, omega arith) refl refl refl

zeros : ℕ → Bytes
zeros zero = []
zeros (suc n) = 0 ∷ zeros n

length-zeros : (n : ℕ) → length (zeros n) ≡ n
unfolding zeros
length-zeros zero = refl
length-zeros (suc n) = omega (arith, length-zeros n)

send_command_oversized_example :
    send_command 0x18 (zeros 65535) connected
    ≡ (err struct_error, record connected { next_cmd_id = following 65534 })
send_command_oversized_example =
    send_command_oversized 0x18 (zeros 65535) connected (omega arith)
      (omega (arith, length-zeros 65535))
