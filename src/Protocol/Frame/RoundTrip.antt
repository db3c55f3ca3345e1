-- ===== src/Protocol/Frame/RoundTrip.antt =====
-- A frame on the wire: what `to_bytes` writes, `from_bytes` reads.
use rose_esp.Prelude.{
  ℕ, ◌+◌, ◌≡◌, ◌≤◌, ◌∙◌, ap, List, [], ◌∷◌, ◌++◌, length, take, drop, arith, All, length-append,
  sym, take-append-drop, length-drop, ◌<◌, take-append, append_assoc, false, drop-append, All-take,
  take_all, length-take, ltb,
}
use rose_esp.Prelude.Int.{ℤ, pos, pos_part}
use rose_esp.Prelude.Result.{ok, err, value_error, ◌>>=◌, >>=-eq-ok}
use rose_esp.Struct.{Bytes, IsByte, pack, unpack, fields, decode}
use rose_esp.Struct.Laws.{length-pack, unpack-pack, pack-fields}
use rose_esp.Protocol.Frame.{MessageFrame, header_format, of_header, from_bytes, to_bytes, slice}

abbrev pub header_fields : MessageFrame → List ℤ
header_fields f = f.version ∷ f.msg_type ∷ f.length ∷ f.cmd_id ∷ f.crc ∷ []

pub to_bytes_lem :
    (f : MessageFrame) {bs : Bytes}
    → to_bytes f ≡ ok bs
    → (header : Bytes) × (pack header_format (header_fields f) ≡ ok header)
      × (bs ≡ header ++ f.payload)
unfolding to_bytes
to_bytes_lem f {bs} h =
    let (header, p, q) = >>=-eq-ok (pack header_format (header_fields f)) _ {b = bs} h in
    (header, p, ground arith)

pub length-to_bytes :
    (f : MessageFrame) {bs : Bytes} → to_bytes f ≡ ok bs → length bs ≡ 8 + length f.payload
length-to_bytes f h =
    let (header, p, e) = to_bytes_lem f h in
    rw e (omega (arith, length-append header f.payload, length-pack header_format _ p))

payload-slice :
    (header payload more : Bytes)
    → length header ≡ 8
    → slice 8 (length payload) (header ++ (payload ++ more)) ≡ payload
payload-slice header payload more e =
    let past : drop 8 (header ++ (payload ++ more)) ≡ payload ++ more =
      rw e at (drop-append header (payload ++ more)) in
    ap (take (length payload)) past ∙ take-append payload more

of_header_lem :
    (f : MessageFrame) (header more : Bytes)
    → length header ≡ 8
    → f.length ≡ pos (length f.payload)
    → of_header (header ++ (f.payload ++ more)) (header_fields f) ≡ ok f
unfolding of_header
of_header_lem f header more size e = ground (arith, payload-slice header f.payload more size)

from_bytes_header :
    (header rest : Bytes) (vs : List ℤ)
    → length header ≡ 8
    → unpack header_format header ≡ ok vs
    → from_bytes (header ++ rest) ≡ of_header (header ++ rest) vs
unfolding from_bytes
from_bytes_header header rest vs e h =
    let long : ltb (length (header ++ rest)) 8 ≡ false =
      ground (arith, length-append header rest) in
    let front : take 8 (header ++ rest) ≡ header = rw e at (take-append header rest) in
    rw (long, front, h, ◌>>=◌)

-- A frame whose `length` field is its payload's length is read back, whatever bytes follow.
pub from_bytes-to_bytes :
    (f : MessageFrame) (more : Bytes) {bs : Bytes}
    → f.length ≡ pos (length f.payload)
    → to_bytes f ≡ ok bs
    → from_bytes (bs ++ more) ≡ ok f
from_bytes-to_bytes f more e h =
    let (header, p, eb) = to_bytes_lem f h in
    let size = length-pack header_format (header_fields f) p in
    rw (eb, append_assoc header f.payload more)
      (from_bytes_header header (f.payload ++ more) _ size (unpack-pack header_format _ p)
        ∙ of_header_lem f header more size e)

abbrev pub header_of : Bytes → List ℤ
header_of bs = fields header_format (take 8 bs)

unpack-header : (bs : Bytes) → 8 ≤ length bs → unpack header_format (take 8 bs) ≡ ok (header_of bs)
unfolding unpack
unpack-header bs h = ground (arith, length-take 8 bs)

-- Eight bytes or more are always read, and nothing less.
pub from_bytes-eq : (bs : Bytes) → 8 ≤ length bs → from_bytes bs ≡ of_header bs (header_of bs)
unfolding from_bytes
from_bytes-eq bs h =
    let long : ltb (length bs) 8 ≡ false = ground arith in rw (long, unpack-header bs h, ◌>>=◌)

pub from_bytes_short : (bs : Bytes) → length bs < 8 → from_bytes bs ≡ err value_error
unfolding from_bytes
from_bytes_short bs h = ground arith

-- What a frame read from a buffer holds.
pub from_bytes_lem :
    (bs : Bytes) {f : MessageFrame}
    → 8 ≤ length bs
    → from_bytes bs ≡ ok f
    → (header_of bs ≡ header_fields f) × (f.payload ≡ slice 8 (pos_part f.length) bs)
unfolding of_header fields decode
from_bytes_lem bs {f} h e =
    let read : of_header bs (header_of bs) ≡ ok f = sym (from_bytes-eq bs h) ∙ e in
    (ground arith, ground arith)

whole_slice :
    (n : ℕ) (bs : Bytes) → length bs ≡ 8 + length (slice 8 n bs) → take 8 bs ++ slice 8 n bs ≡ bs
whole_slice n bs h =
    let all : slice 8 n bs ≡ drop 8 bs =
      take_all n (drop 8 bs) (omega (arith, length-take n (drop 8 bs), length-drop 8 bs)) in
    rw all (take-append-drop 8 bs)

-- A buffer of bytes that is exactly one whole frame is written back byte for byte.
pub to_bytes-from_bytes :
    (bs : Bytes) {f : MessageFrame}
    → All IsByte bs
    → from_bytes bs ≡ ok f
    → length bs ≡ 8 + length f.payload
    → to_bytes f ≡ ok bs
unfolding to_bytes
to_bytes-from_bytes bs {f} b h e =
    let (hf, hp) = from_bytes_lem bs (omega arith) h in
    let p =
      pack-fields header_format (take 8 bs) (All-take IsByte 8 bs b)
        (omega (arith, length-take 8 bs)) in
    let packed : pack header_format (header_fields f) ≡ ok (take 8 bs) = rw hf at p in
    let size : length bs ≡ 8 + length (slice 8 (pos_part f.length) bs) =
      e ∙ ap (λ x. 8 + length x) hp in
    rw (packed, ◌>>=◌)
      (ap ok (ap (λ x. take 8 bs ++ x) hp ∙ whole_slice (pos_part f.length) bs size))

pub from_bytes_total : (bs : Bytes) → 8 ≤ length bs → (f : MessageFrame) × (from_bytes bs ≡ ok f)
unfolding of_header fields
from_bytes_total bs h = (_, from_bytes-eq bs h)
