-- ===== src/Protocol/Crc/Xor.antt =====
-- `bit_xor` and `bit_and` at variables: the lowest digit, a bound, and the cancellation of a low
-- field.
use Prim.Native.Nat.{bit_xor, bit_and, digits, differ, min, bit_xor-bitwise, bit_and-bitwise}
use rose_esp.Prelude.{ℕ, zero, suc, ◌+◌, ◌*◌, ◌/◌, ◌%◌, ◌≤◌, ◌<◌, ◌≡◌, refl, ap, ◌∙◌, arith}

-- With enough digits to go, their number is irrelevant.
module _ (rest : ℕ → ℕ) (op : ℕ → ℕ → ℕ) where
  digits_enough : (n m : ℕ) (a b : ℕ) → a ≤ n → n ≤ m → digits rest op m a b ≡ digits rest op n a b
  digits_enough zero zero a b h k = refl
  digits_enough zero (suc m) zero b h k = refl
  digits_enough zero (suc m) (suc a) b h k = absurd (omega arith)
  digits_enough (suc n) zero a b h k = absurd (omega arith)
  digits_enough (suc n) (suc m) zero b h k = refl
  digits_enough (suc n) (suc m) (suc a) b h k =
      ap (λ t. t * 2 + op (suc a % 2) (b % 2))
        (digits_enough n m (suc a / 2) (b / 2) (omega arith) (omega arith))

  lowest_digit :
      (a b : ℕ)
      → digits rest op (suc a) (suc a) b
        ≡ digits rest op (suc a / 2) (suc a / 2) (b / 2) * 2 + op (suc a % 2) (b % 2)
  lowest_digit a b =
      ap (λ t. t * 2 + op (suc a % 2) (b % 2))
        (digits_enough (suc a / 2) a (suc a / 2) (b / 2) (omega arith) (omega arith))

differ-digits : (x y : ℕ) → x < 2 → y < 2 → differ x y ≡ (x + y) % 2
differ-digits zero zero h k = refl
differ-digits zero (suc zero) h k = refl
differ-digits zero (suc (suc y)) h k = absurd (omega arith)
differ-digits (suc zero) zero h k = refl
differ-digits (suc zero) (suc zero) h k = refl
differ-digits (suc zero) (suc (suc y)) h k = absurd (omega arith)
differ-digits (suc (suc x)) y h k = absurd (omega arith)

zero-bit_xor : (b : ℕ) → bit_xor 0 b ≡ b
zero-bit_xor b = bit_xor-bitwise 0 b

pub bit_xor_lowest : (a b : ℕ) → bit_xor a b ≡ bit_xor (a / 2) (b / 2) * 2 + (a % 2 + b % 2) % 2
bit_xor_lowest zero b = omega (arith, zero-bit_xor b, zero-bit_xor (b / 2))
bit_xor_lowest (suc a) b = omega (
  arith,
  bit_xor-bitwise (suc a) b,
  bit_xor-bitwise (suc a / 2) (b / 2),
  lowest_digit (λ y. y) differ a b,
  differ-digits (suc a % 2) (b % 2) (omega arith) (omega arith),
)

zero-bit_and : (b : ℕ) → bit_and 0 b ≡ 0
zero-bit_and b = bit_and-bitwise 0 b

bit_and_lowest : (a b : ℕ) → bit_and a b ≡ bit_and (a / 2) (b / 2) * 2 + min (a % 2) (b % 2)
bit_and_lowest zero b = omega (arith, zero-bit_and b, zero-bit_and (b / 2))
bit_and_lowest (suc a) b = omega (
  arith,
  bit_and-bitwise (suc a) b,
  bit_and-bitwise (suc a / 2) (b / 2),
  lowest_digit (λ y. 0) min a b,
)

below_zero : (n a : ℕ) → a ≤ n → (bit_xor a 0 ≡ a) × (bit_and a 0 ≡ 0)
below_zero n zero h = (zero-bit_xor 0, zero-bit_and 0)
below_zero zero (suc a) h = absurd (omega arith)
below_zero (suc n) (suc a) h =
    let (x, y) = below_zero n (suc a / 2) (omega arith) in
    (omega (arith, bit_xor_lowest (suc a) 0), omega (arith, bit_and_lowest (suc a) 0))

bit_xor-zero : (a : ℕ) → bit_xor a 0 ≡ a
bit_xor-zero a = (below_zero a a (omega arith)).0

pub bit_and-one : (a : ℕ) → bit_and a 1 ≡ a % 2
bit_and-one a = omega (arith, bit_and_lowest a 1, (below_zero (a / 2) (a / 2) (omega arith)).1)

abbrev pub two_pow : ℕ → ℕ
two_pow zero = 1
two_pow (suc k) = 2 * two_pow k

pub bit_xor-lt : (k a b : ℕ) → a < two_pow k → b < two_pow k → bit_xor a b < two_pow k
bit_xor-lt zero a b h l = let e : a ≡ 0 = omega arith in rw e (omega (arith, zero-bit_xor b))
bit_xor-lt (suc k) a b h l =
    omega (arith, bit_xor_lowest a b, bit_xor-lt k (a / 2) (b / 2) (omega arith) (omega arith))

-- The lowest `k` digits cancel against themselves, and the others stay.
pub bit_xor_cancel : (k q r : ℕ) → r < two_pow k → bit_xor (q * two_pow k + r) r ≡ q * two_pow k
bit_xor_cancel zero q r h =
    let e : r ≡ 0 = omega arith in rw e (omega (arith, bit_xor-zero (q * 1 + 0)))
bit_xor_cancel (suc k) q r h =
    let half : (q * two_pow (suc k) + r) / 2 ≡ q * two_pow k + r / 2 = omega arith in
    let low : ((q * two_pow (suc k) + r) % 2 + r % 2) % 2 ≡ 0 = omega arith in
    bit_xor_lowest (q * two_pow (suc k) + r) r
    ∙ rw (half, low, bit_xor_cancel k q (r / 2) (omega arith)) (omega arith)
