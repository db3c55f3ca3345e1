-- ===== src/Protocol/Crc.antt =====
-- The checksum loop of `MessageFrame.calculate_crc` (bridge/src/protocol.py), on natural numbers.
pub mod Xor
pub mod Residue
use Prim.Native.Nat.{bit_and, bit_xor}
use rose_esp.Prelude.{ℕ, zero, suc, ◌/◌, List, [], ◌∷◌, ◌==◌, if◌then◌else◌}
use rose_esp.Struct.{Bytes}

-- `if crc & 1: crc = (crc >> 1) ^ 0xA001 else: crc >>= 1`
unfoldable pub crc_bit : ℕ → ℕ
crc_bit crc = if bit_and crc 1 == 0 then crc / 2 else bit_xor (crc / 2) 0xA001

-- `for _ in range(n)`
unfoldable pub crc_bits : ℕ → ℕ → ℕ
unfolding crc_bit
crc_bits zero crc = crc
crc_bits (suc n) crc = crc_bits n (crc_bit crc)

-- `for byte in data`
unfoldable pub crc_loop : ℕ → Bytes → ℕ
unfolding crc_bits
crc_loop crc [] = crc
crc_loop crc (byte ∷ rest) = crc_loop (crc_bits 8 (bit_xor crc byte)) rest
