-- ===== src/Struct.antt =====
-- Python's `struct` module as the bridge uses it (bridge/src/protocol.py): little-endian packing
-- without padding. Bytes are a list of numbers below 256, and a Python `int` is a `ℤ`. The laws
-- are in the children.
pub mod Endian
pub mod Laws
use rose_esp.Prelude.{
  ℕ, zero, suc, ◌+◌, ◌-◌, ◌*◌, ◌/◌, ◌%◌, ◌<◌, Bool, List, [], ◌∷◌, ◌++◌, length, take, drop, ltb,
  ◌==◌, if◌then◌else◌,
}
use rose_esp.Prelude.Int.{ℤ, pos, negsuc}
use rose_esp.Prelude.Result.{Result, ok, err, struct_error, ◌>>=◌}

abbrev pub Bytes : Type 0
Bytes = List ℕ

abbrev pub IsByte : ℕ → Type 0
IsByte b = b < 256

-- The format characters `B`, `H`, `I`, `Q`, `b` and `q`.
pub data Format : Type 0 where
  u8 u16 u32 u64 s8 s64 : Format

abbrev pub width : Format → ℕ
width u8 = 1
width u16 = 2
width u32 = 4
width u64 = 8
width s8 = 1
width s64 = 8

-- 256 to the power `w`.
abbrev pub span : ℕ → ℕ
span zero = 1
span (suc w) = 256 * span w

unfoldable pub le_bytes : ℕ → ℕ → Bytes
le_bytes zero n = []
le_bytes (suc w) n = (n % 256) ∷ le_bytes w (n / 256)

unfoldable pub of_le : Bytes → ℕ
of_le [] = 0
of_le (b ∷ bs) = b + 256 * of_le bs

unfoldable pub unsigned : ℕ → ℤ → Result Bytes
unsigned w (pos n) = if ltb n (span w) then ok (le_bytes w n) else err struct_error
unsigned w (negsuc n) = err struct_error

unfoldable pub signed : ℕ → ℤ → Result Bytes
signed w (pos n) = if ltb n (span w / 2) then ok (le_bytes w n) else err struct_error
signed w (negsuc n) =
    if ltb n (span w / 2) then ok (le_bytes w (span w - 1 - n)) else err struct_error

unfoldable pub encode : Format → ℤ → Result Bytes
encode u8 v = unsigned 1 v
encode u16 v = unsigned 2 v
encode u32 v = unsigned 4 v
encode u64 v = unsigned 8 v
encode s8 v = signed 1 v
encode s64 v = signed 8 v

-- Two's complement.
unfoldable pub to_signed : ℕ → ℕ → ℤ
to_signed w n = if ltb n (span w / 2) then pos n else negsuc (span w - 1 - n)

unfoldable pub decode : Format → Bytes → ℤ
decode u8 bs = pos (of_le bs)
decode u16 bs = pos (of_le bs)
decode u32 bs = pos (of_le bs)
decode u64 bs = pos (of_le bs)
decode s8 bs = to_signed 1 (of_le bs)
decode s64 bs = to_signed 8 (of_le bs)

abbrev pub calcsize : List Format → ℕ
calcsize [] = 0
calcsize (f ∷ fs) = width f + calcsize fs

-- struct.pack('<…', *values)
unfoldable pub pack : List Format → List ℤ → Result Bytes
unfolding encode unsigned signed le_bytes
pack [] [] = ok []
pack [] (v ∷ vs) = err struct_error
pack (f ∷ fs) [] = err struct_error
pack (f ∷ fs) (v ∷ vs) = encode f v >>= λ b. pack fs vs >>= λ rest. ok (b ++ rest)

unfoldable pub fields : List Format → Bytes → List ℤ
fields [] bs = []
fields (f ∷ fs) bs = decode f (take (width f) bs) ∷ fields fs (drop (width f) bs)

-- struct.unpack('<…', data)
unfoldable pub unpack : List Format → Bytes → Result (List ℤ)
unfolding fields decode to_signed of_le
unpack fs bs = if length bs == calcsize fs then ok (fields fs bs) else err struct_error
