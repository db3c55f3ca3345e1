-- ===== src/Protocol/Frame.antt =====
-- `MessageFrame` of bridge/src/protocol.py.
pub mod RoundTrip
pub mod Checksum
use rose_esp.Prelude.{ℕ, ◌+◌, Bool, List, [], ◌∷◌, ◌++◌, length, take, drop, ltb, if◌then◌else◌}
use rose_esp.Prelude.Int.{ℤ, pos, pos_part, ltb_ℤ}
use rose_esp.Prelude.Result.{Result, ok, err, struct_error, value_error, ◌>>=◌}
use rose_esp.Struct.{Bytes, Format, u8, u16, pack, unpack}
use rose_esp.Protocol.Crc.{crc_loop}

pub record MessageFrame : Type 0 where
  pub version : ℤ
  pub msg_type : ℤ
  pub length : ℤ
  pub cmd_id : ℤ
  pub crc : ℤ
  pub payload : Bytes

-- '<BBHHH'
abbrev pub header_format : List Format
header_format = u8 ∷ u8 ∷ u16 ∷ u16 ∷ u16 ∷ []

-- `data[a:b]` for naturals `a` and `b`; out of range it is cut short.
abbrev pub slice : ℕ → ℕ → Bytes → Bytes
slice start n data_ = take n (drop start data_)

-- The assignment from the unpacked header.
unfoldable pub of_header : Bytes → List ℤ → Result MessageFrame
of_header bytes (version ∷ msg_type ∷ length ∷ cmd_id ∷ crc ∷ []) = ok (record {
  version = version;
  msg_type = msg_type;
  length = length;
  cmd_id = cmd_id;
  crc = crc;
  payload = if ltb_ℤ (pos 0) length then slice 8 (pos_part length) bytes else [];
})
of_header bytes _ = err struct_error

unfoldable pub from_bytes : Bytes → Result MessageFrame
unfolding of_header
from_bytes bytes =
    if ltb (length bytes) 8
    then err value_error
    else unpack header_format (take 8 bytes) >>= of_header bytes

unfoldable pub to_bytes : MessageFrame → Result Bytes
to_bytes frame = do
  header ←
      pack header_format
        (frame.version ∷ frame.msg_type ∷ frame.length ∷ frame.cmd_id ∷ frame.crc ∷ [])
  ok (header ++ frame.payload)

unfoldable pub calculate_crc : MessageFrame → Result ℤ
calculate_crc frame = do
  header ←
      pack (u8 ∷ u8 ∷ u16 ∷ u16 ∷ [])
        (frame.version ∷ frame.msg_type ∷ frame.length ∷ frame.cmd_id ∷ [])
  ok (pos (crc_loop 0xFFFF (header ++ frame.payload)))
