-- ===== src/Prelude/Result.antt =====
-- Code that may raise: the exceptions that the modelled code raises, and their propagation.
use rose_esp.Prelude.{◌≡◌, refl, ◌⊎◌, inl, inr}

-- `struct.error`, `ValueError`, `IndexError`, `KeyError`, `TypeError`, and whatever else a library call raises.
pub data Error : Type 0 where
  struct_error value_error index_error key_error type_error other_error : Error

pub data Result {ℓ} (T : Type ℓ) : Type ℓ where
  err : Error → Result T
  ok : T → Result T

-- A statement that raises ends the function; otherwise the next one sees its value.
infixl 5 ◌>>=◌
abbrev pub ◌>>=◌ {ℓ κ} : {T : Type ℓ} {S : Type κ} → Result T → (T → Result S) → Result S
err raised >>= next = err raised
ok value >>= next = next value

-- A body that returns has gone through its first statement.
pub >>=-eq-ok {ℓ κ} :
    {T : Type ℓ} {S : Type κ} (first : Result T) (next : T → Result S) {b : S}
    → (first >>= next) ≡ ok b
    → (value : T) × (first ≡ ok value) × (next value ≡ ok b)
>>=-eq-ok (err raised) next h = cc
>>=-eq-ok (ok value) next h = (value, refl, h)

-- To split on a computed result and keep the equation.
pub Result-cases {ℓ} :
    {T : Type ℓ} (r : Result T) → ((e : Error) × (r ≡ err e)) ⊎ ((t : T) × (r ≡ ok t))
Result-cases (err e) = inl (e, refl)
Result-cases (ok t) = inr (t, refl)

pub ok-injective {ℓ} : {T : Type ℓ} {t s : T} → ok t ≡ ok s → t ≡ s
ok-injective h = cc
