-- ===== src/Handler/Queues.antt =====
-- A dict of lists, as `pending_responses` and `pending_events` of bridge/src/events.py are: what
-- arrives is appended under its key, and a key whose list is used up is dropped.
pub mod Laws
pub mod Tidy
use rose_esp.Prelude.{
  ℕ, suc, Bool, true, false, not, Option, none, some, List, [], ◌∷◌, ◌++◌, is_empty, if◌then◌else◌,
}
use rose_esp.Prelude.Eq.{Eq}
use rose_esp.Prelude.Dict.{Dict, get, put, remove}

abbrev pub or_empty {ℓ} : {E : Type ℓ} → Option (List E) → List E
or_empty none = []
or_empty (some es) = es

module _ {E : Type 0} where
  -- The first element that satisfies the predicate, and the list without it.
  unfoldable pub take_first : (E → Bool) → List E → Option (E × List E)
  take_first p [] = none
  take_first p (x ∷ xs) =
      let later = take_first p xs in
      if p x then some (x, xs) else elim later [ none ↦ none | some (e, rest) ↦ some (e, x ∷ rest) ]

  -- `kept` and `removed` of the loop in `discard_events_matching`.
  unfoldable pub keep_others : (E → Bool) → List E → List E
  keep_others p [] = []
  keep_others p (x ∷ xs) = let rest = keep_others p xs in if p x then rest else x ∷ rest

  unfoldable pub count_matching : (E → Bool) → List E → ℕ
  count_matching p [] = 0
  count_matching p (x ∷ xs) = let n = count_matching p xs in if p x then suc n else n

module _ {K E : Type 0} ⦃e : Eq K⦄ where
  -- `d.get(k, [])`
  unfoldable pub queue : Dict K (List E) → K → List E
  queue d k = or_empty (get d k)

  -- `d.setdefault(k, []).append(x)`
  unfoldable pub push : Dict K (List E) → K → E → Dict K (List E)
  push d k x = put d k (queue d k ++ x ∷ [])

  -- What is left of a list goes back under its key, and an empty one is dropped.
  unfoldable pub store : Dict K (List E) → K → List E → Dict K (List E)
  store d k es = if is_empty es then remove d k else put d k es

  -- `pop(i)` at the first element that satisfies the predicate.
  unfoldable pub pop_matching : (E → Bool) → Dict K (List E) → K → Option (E × Dict K (List E))
  pop_matching p d k = elim (take_first p (queue d k)) [
    | none ↦ none
    | some (x, rest) ↦ some (x, store d k rest)
  ]

  -- `pop(0)`
  unfoldable pub pop_first : Dict K (List E) → K → Option (E × Dict K (List E))
  pop_first d k = elim (queue d k) [ [] ↦ none | x ∷ rest ↦ some (x, store d k rest) ]

  unfoldable pub discard_matching : (E → Bool) → Dict K (List E) → K → Dict K (List E) × ℕ
  discard_matching p d k = elim (queue d k) [
    | [] ↦ (d, 0)
    | x ∷ xs ↦ (store d k (keep_others p (x ∷ xs)), count_matching p (x ∷ xs))
  ]
