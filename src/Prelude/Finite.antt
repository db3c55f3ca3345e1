-- ===== src/Prelude/Finite.antt =====
-- A property of the numbers below a bound, checked one by one.
use rose_esp.Prelude.{
  ℕ, zero, suc, ◌<◌, ◌≡◌, sym, Bool, true, ◌&&◌, arith, Bool-cases, inl, inr, ◌==◌, ==_iff,
}
use mathlib.Core.Path.{subst}

abbrev pub below : ℕ → (ℕ → Bool) → Bool
below zero p = true
below (suc n) p = p n && below n p

pub below_sound : (n : ℕ) (p : ℕ → Bool) → below n p ≡ true → (k : ℕ) → k < n → p k ≡ true
below_sound zero p h k l = absurd (omega arith)
below_sound (suc n) p h k l = elim (Bool-cases (k == n)) [
  | inl e ↦ subst (λ m. p m ≡ true) (sym ((==_iff k n).0 e)) (ground arith)
  | inr f ↦ below_sound n p (ground arith) k (ground (arith, ==_iff k n))
]
