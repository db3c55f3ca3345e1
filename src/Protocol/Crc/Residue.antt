-- ===== src/Protocol/Crc/Residue.antt =====
-- The checksum fits 16 bits, and feeding a checksum's own bytes to it gives zero.
use Prim.Native.Nat.{bit_xor}
use rose_esp.Prelude.{ℕ, zero, suc, ◌+◌, ◌*◌, ◌/◌, ◌%◌, ◌<◌, ◌≡◌, refl, [], ◌∷◌, ◌++◌, arith, All}
use rose_esp.Struct.{Bytes, IsByte, le_bytes}
use rose_esp.Protocol.Crc.{crc_bit, crc_bits, crc_loop}
use rose_esp.Protocol.Crc.Xor.{two_pow, bit_and-one, bit_xor-lt, bit_xor_cancel}

crc_bit-lt : (c : ℕ) → c < 65536 → crc_bit c < 65536
unfolding crc_bit
crc_bit-lt c h = ground (arith, bit_xor-lt 16 (c / 2) 0xA001 (omega arith) (omega arith))

crc_bits-lt : (n c : ℕ) → c < 65536 → crc_bits n c < 65536
unfolding crc_bits
crc_bits-lt zero c h = h
crc_bits-lt (suc n) c h = crc_bits-lt n (crc_bit c) (crc_bit-lt c h)

-- The register stays in 16 bits over any bytes.
pub crc_loop-lt : (c : ℕ) (bs : Bytes) → c < 65536 → All IsByte bs → crc_loop c bs < 65536
unfolding crc_loop
crc_loop-lt c [] h b = h
crc_loop-lt c (x ∷ bs) h b =
    crc_loop-lt (crc_bits 8 (bit_xor c x)) bs (crc_bits-lt 8 _ (bit_xor-lt 16 c x h (omega arith)))
      b.1

pub crc_loop-append : (c : ℕ) (xs ys : Bytes) → crc_loop c (xs ++ ys) ≡ crc_loop (crc_loop c xs) ys
unfolding crc_loop
crc_loop-append c [] ys = refl
crc_loop-append c (x ∷ xs) ys = crc_loop-append (crc_bits 8 (bit_xor c x)) xs ys

crc_bit-double : (n : ℕ) → crc_bit (2 * n) ≡ n
unfolding crc_bit
crc_bit-double n = ground (arith, bit_and-one (2 * n))

-- Over zero digits the register only shifts.
crc_bits-shift : (k q : ℕ) → crc_bits k (q * two_pow k) ≡ q
unfolding crc_bits
crc_bits-shift zero q = omega arith
crc_bits-shift (suc k) q =
    let e : q * two_pow (suc k) ≡ 2 * (q * two_pow k) = omega arith in
    rw (e, crc_bit-double (q * two_pow k)) (crc_bits-shift k q)

-- A byte equal to the low byte of the register shifts it out.
crc_byte_cancel : (c : ℕ) → crc_bits 8 (bit_xor c (c % 256)) ≡ c / 256
crc_byte_cancel c =
    let split : c / 256 * 256 + c % 256 ≡ c = omega arith in
    let cancel : bit_xor c (c % 256) ≡ c / 256 * 256 =
      rw split at (bit_xor_cancel 8 (c / 256) (c % 256) (omega arith)) in
    rw cancel (crc_bits-shift 8 (c / 256))

pub crc_residue : (c : ℕ) → c < 65536 → crc_loop c (le_bytes 2 c) ≡ 0
unfolding crc_loop le_bytes
crc_residue c h = rw (crc_byte_cancel c, crc_byte_cancel (c / 256)) (omega arith)
