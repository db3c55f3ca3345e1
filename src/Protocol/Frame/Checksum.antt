-- ===== src/Protocol/Frame/Checksum.antt =====
-- The checksum of a frame: its range, and what a receiver finds over the checksummed bytes.
use rose_esp.Prelude.{ℕ, ◌<◌, ◌≡◌, List, [], ◌∷◌, ◌++◌, arith, All, All-append}
use rose_esp.Prelude.Int.{ℤ, pos}
use rose_esp.Prelude.Result.{ok, >>=-eq-ok}
use rose_esp.Struct.{Bytes, IsByte, Format, u8, u16, pack, le_bytes}
use rose_esp.Struct.Laws.{pack-IsByte}
use rose_esp.Protocol.Crc.{crc_loop}
use rose_esp.Protocol.Crc.Residue.{crc_loop-lt, crc_loop-append, crc_residue}
use rose_esp.Protocol.Frame.{MessageFrame, calculate_crc}

-- '<BBHH', the header without its checksum
abbrev pub crc_format : List Format
crc_format = u8 ∷ u8 ∷ u16 ∷ u16 ∷ []

abbrev pub crc_fields : MessageFrame → List ℤ
crc_fields f = f.version ∷ f.msg_type ∷ f.length ∷ f.cmd_id ∷ []

pub calculate_crc_lem :
    (f : MessageFrame) {v : ℤ}
    → calculate_crc f ≡ ok v
    → (header : Bytes) × (pack crc_format (crc_fields f) ≡ ok header)
      × (v ≡ pos (crc_loop 0xFFFF (header ++ f.payload)))
unfolding calculate_crc
calculate_crc_lem f {v} h =
    let (header, p, q) = >>=-eq-ok (pack crc_format (crc_fields f)) _ {b = v} h in
    (header, p, ground arith)

-- The checksum fits the 16 bits of its field. Over the checksummed bytes (the header without the
-- checksum, then the payload) followed by the checksum itself, low byte first, the loop ends at 0.
pub calculate_crc_residue :
    (f : MessageFrame) {v : ℤ}
    → All IsByte f.payload
    → calculate_crc f ≡ ok v
    → (header : Bytes) × (c : ℕ) × (pack crc_format (crc_fields f) ≡ ok header)
      × (v ≡ pos c)
      × (c < 65536)
      × (crc_loop 0xFFFF ((header ++ f.payload) ++ le_bytes 2 c) ≡ 0)
calculate_crc_residue f b h =
    let (header, p, e) = calculate_crc_lem f h in
    let body = header ++ f.payload in
    let lt =
      crc_loop-lt 0xFFFF body (omega arith)
        (All-append IsByte header f.payload (pack-IsByte crc_format _ p) b) in
    (
      header,
      crc_loop 0xFFFF body,
      p,
      e,
      lt,
      rw (crc_loop-append 0xFFFF body (le_bytes 2 (crc_loop 0xFFFF body))) (crc_residue _ lt),
    )
