-- ===== src/Struct/Laws/Fields.antt =====
-- One field of a format: its range, its size, and its value read back.
use rose_esp.Prelude.{ℕ, ◌-◌, ◌/◌, ◌%◌, ◌≤◌, ◌<◌, ◌≡◌, refl, List, [], ◌∷◌, arith, length, All}
use rose_esp.Prelude.Int.{ℤ, pos, negsuc}
use rose_esp.Prelude.Result.{ok}
use rose_esp.Struct.{
  Bytes, IsByte, Format, u8, u16, u32, u64, s8, s64, width, span, le_bytes, of_le, unsigned, signed,
  to_signed, encode, decode,
}
use rose_esp.Struct.Endian.{
  length-le_bytes, le_bytes-IsByte, of_le-le_bytes, of_le-lt-span, le_bytes-of_le,
}

abbrev InUnsigned : ℕ → ℤ → Type 0
InUnsigned w (pos n) = n < span w
InUnsigned w (negsuc n) = ⊥

abbrev InSigned : ℕ → ℤ → Type 0
InSigned w (pos n) = n < span w / 2
InSigned w (negsuc n) = n < span w / 2

-- The values that a format character takes.
abbrev pub InRange : Format → ℤ → Type 0
InRange u8 = InUnsigned 1
InRange u16 = InUnsigned 2
InRange u32 = InUnsigned 4
InRange u64 = InUnsigned 8
InRange s8 = InSigned 1
InRange s64 = InSigned 8

abbrev pub AllInRange : List Format → List ℤ → Type 0
AllInRange [] [] = Unit
AllInRange (f ∷ fs) (v ∷ vs) = InRange f v × AllInRange fs vs
AllInRange _ _ = ⊥

unsigned_total : (w : ℕ) (v : ℤ) → InUnsigned w v → (b : Bytes) × (unsigned w v ≡ ok b)
unfolding unsigned
unsigned_total w (pos n) h = (le_bytes w n, ground arith)
unsigned_total w (negsuc n) h = absurd h

signed_total : (w : ℕ) (v : ℤ) → InSigned w v → (b : Bytes) × (signed w v ≡ ok b)
unfolding signed
signed_total w (pos n) h = (le_bytes w n, ground arith)
signed_total w (negsuc n) h = (le_bytes w (span w - 1 - n), ground arith)

pub encode_total : (f : Format) (v : ℤ) → InRange f v → (b : Bytes) × (encode f v ≡ ok b)
unfolding encode
encode_total u8 = unsigned_total 1
encode_total u16 = unsigned_total 2
encode_total u32 = unsigned_total 4
encode_total u64 = unsigned_total 8
encode_total s8 = signed_total 1
encode_total s64 = signed_total 8

-- What the bytes `b` of the value `v` are.
pub record Encoded (f : Format) (v : ℤ) (b : Bytes) : Type 0 where
  pub size : length b ≡ width f
  pub bytes : All IsByte b
  pub value : decode f b ≡ v
  pub range : InRange f v

unsigned_lem :
    (w : ℕ) (v : ℤ) {b : Bytes}
    → unsigned w v ≡ ok b
    → (n : ℕ) × (v ≡ pos n) × (n < span w) × (b ≡ le_bytes w n)
unfolding unsigned
unsigned_lem w (pos n) h = (n, refl, ground arith, ground arith)
unsigned_lem w (negsuc n) h = cc

unsigned_value :
    (w : ℕ) (v : ℤ) {b : Bytes} → unsigned w v ≡ ok b → (pos (of_le b) ≡ v) × InUnsigned w v
unsigned_value w v h =
    let (n, e, lt, eb) = unsigned_lem w v h in rw (e, eb, of_le-le_bytes w n lt) (refl, lt)

signed_lem :
    (w : ℕ) (v : ℤ) {b : Bytes}
    → 256 ≤ span w
    → signed w v ≡ ok b
    → (n : ℕ) × (b ≡ le_bytes w n) × (n < span w) × (to_signed w n ≡ v) × InSigned w v
unfolding signed to_signed
signed_lem w (pos n) big h = (n, ground arith, ground arith, ground arith, ground arith)
signed_lem w (negsuc n) big h =
    (span w - 1 - n, ground arith, ground arith, ground arith, ground arith)

signed_value :
    (w : ℕ) (v : ℤ) {b : Bytes}
    → 256 ≤ span w
    → signed w v ≡ ok b
    → (to_signed w (of_le b) ≡ v) × InSigned w v
signed_value w v big h =
    let (n, eb, lt, value, range) = signed_lem w v big h in
    rw (eb, of_le-le_bytes w n lt) (value, range)

unsigned_shape : (w : ℕ) (v : ℤ) {b : Bytes} → unsigned w v ≡ ok b → (length b ≡ w) × All IsByte b
unsigned_shape w v h =
    let (n, e, lt, eb) = unsigned_lem w v h in rw eb (length-le_bytes w n, le_bytes-IsByte w n)

signed_shape :
    (w : ℕ) (v : ℤ) {b : Bytes} → 256 ≤ span w → signed w v ≡ ok b → (length b ≡ w) × All IsByte b
signed_shape w v big h =
    let (n, eb, lt, value, range) = signed_lem w v big h in
    rw eb (length-le_bytes w n, le_bytes-IsByte w n)

module _ {v : ℤ} {b : Bytes} where
  from_parts :
      (f : Format)
      → (length b ≡ width f) × All IsByte b
      → (decode f b ≡ v) × InRange f v
      → Encoded f v b
  from_parts f s r = record { size = s.0; bytes = s.1; value = r.0; range = r.1 }

pub encode-Encoded : (f : Format) (v : ℤ) {b : Bytes} → encode f v ≡ ok b → Encoded f v b
unfolding encode decode
encode-Encoded u8 v h = from_parts u8 (unsigned_shape 1 v h) (unsigned_value 1 v h)
encode-Encoded u16 v h = from_parts u16 (unsigned_shape 2 v h) (unsigned_value 2 v h)
encode-Encoded u32 v h = from_parts u32 (unsigned_shape 4 v h) (unsigned_value 4 v h)
encode-Encoded u64 v h = from_parts u64 (unsigned_shape 8 v h) (unsigned_value 8 v h)
encode-Encoded s8 v h =
    from_parts s8 (signed_shape 1 v (omega arith) h) (signed_value 1 v (omega arith) h)
encode-Encoded s64 v h =
    from_parts s64 (signed_shape 8 v (omega arith) h) (signed_value 8 v (omega arith) h)

unsigned-of_le : (bs : Bytes) → All IsByte bs → unsigned (length bs) (pos (of_le bs)) ≡ ok bs
unfolding unsigned
unsigned-of_le bs h = ground (arith, of_le-lt-span bs h, le_bytes-of_le bs h)

signed-to_signed :
    (bs : Bytes)
    → All IsByte bs
    → span (length bs) % 2 ≡ 0
    → signed (length bs) (to_signed (length bs) (of_le bs)) ≡ ok bs
unfolding signed to_signed
signed-to_signed bs h big = ground (arith, of_le-lt-span bs h, le_bytes-of_le bs h)

at_width :
    (w : ℕ) (bs : Bytes) → length bs ≡ w → All IsByte bs → unsigned w (pos (of_le bs)) ≡ ok bs
at_width w bs e h = rw (← e) (unsigned-of_le bs h)

at_signed_width :
    (w : ℕ) (bs : Bytes)
    → span w % 2 ≡ 0
    → length bs ≡ w
    → All IsByte bs
    → signed w (to_signed w (of_le bs)) ≡ ok bs
at_signed_width w bs big e h = rw (← e) (signed-to_signed bs h (rw e big))

pub encode-decode :
    (f : Format) (bs : Bytes) → length bs ≡ width f → All IsByte bs → encode f (decode f bs) ≡ ok bs
unfolding encode decode
encode-decode u8 bs = at_width 1 bs
encode-decode u16 bs = at_width 2 bs
encode-decode u32 bs = at_width 4 bs
encode-decode u64 bs = at_width 8 bs
encode-decode s8 bs = at_signed_width 1 bs (omega arith)
encode-decode s64 bs = at_signed_width 8 bs (omega arith)
