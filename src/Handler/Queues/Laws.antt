-- ===== src/Handler/Queues/Laws.antt =====
-- The operations on queues, as seen through `queue`.
use rose_esp.Prelude.{
  ◌+◌, ◌≡◌, refl, ap, Bool, true, false, Option, none, some, List, [], ◌∷◌, ◌++◌, arith, length,
  All, if◌then◌else◌, Bool-cases, Option-cases, inl, inr,
}
use rose_esp.Prelude.Eq.{Eq}
use rose_esp.Prelude.Dict.{Dict, get-put, get-remove}
use rose_esp.Handler.Queues.{
  take_first, keep_others, count_matching, queue, push, store, pop_matching, pop_first,
  discard_matching,
}

module _ {K E : Type 0} ⦃e : Eq K⦄ where
  pub queue-push :
      (d : Dict K (List E)) (k j : K) (x : E)
      → queue (push d k x) j ≡ (if e.beq k j then queue d k ++ x ∷ [] else queue d j)
  unfolding queue push
  queue-push d k j x = ground (arith, get-put d k j (queue d k ++ x ∷ []))

  pub queue-store :
      (d : Dict K (List E)) (k j : K) (es : List E)
      → queue (store d k es) j ≡ (if e.beq k j then es else queue d j)
  unfolding queue store
  queue-store d k j [] = ground (arith, get-remove d k j)
  queue-store d k j (x ∷ xs) = ground (arith, get-put d k j (x ∷ xs))

  -- The oldest entry is returned, and only its queue changes, by that entry.
  pub pop_first_lem :
      (d : Dict K (List E)) (k : K) {x : E} {d' : Dict K (List E)}
      → pop_first d k ≡ some (x, d')
      → (rest : List E) × (queue d k ≡ x ∷ rest)
        × ((j : K) → queue d' j ≡ (if e.beq k j then rest else queue d j))
  unfolding pop_first
  pop_first_lem d k {x} {d'} h = by_queue (queue d k) refl h
    where
      by_queue :
          (es : List E)
          → queue d k ≡ es
          → Path
              (Option (E × Dict K (List E)))
              (elim es [ [] ↦ none | x ∷ rest ↦ some (x, store d k rest) ])
              (some (x, d'))
          → (rest : List E) × (queue d k ≡ x ∷ rest)
            × ((j : K) → queue d' j ≡ (if e.beq k j then rest else queue d j))
      by_queue [] q h = cc
      by_queue (y ∷ ys) q h = (ys, ground arith, λ j. ground (arith, queue-store d k j ys))

  pub pop_first-none : (d : Dict K (List E)) (k : K) → pop_first d k ≡ none → queue d k ≡ []
  unfolding pop_first
  pop_first-none d k h = ground arith

module _ {E : Type 0} (p : E → Bool) where
  pub take_first_lem :
      (xs : List E) {x : E} {rest : List E}
      → take_first p xs ≡ some (x, rest)
      → (before after : List E) × (xs ≡ before ++ (x ∷ after))
        × (rest ≡ before ++ after)
        × (p x ≡ true)
        × All (λ y. p y ≡ false) before
  unfolding take_first
  take_first_lem [] h = cc
  take_first_lem (y ∷ ys) {x} {rest} h = elim (Bool-cases (p y)) [
    | inl t ↦ ([], ys, ground arith, ground arith, ground arith, tt)
    | inr f ↦ elim (Option-cases (take_first p ys)) [
      | inl n ↦ absurd (ground arith)
      | inr ((z, r), s) ↦
          let (before, after, ex, er, px, none_before) = take_first_lem ys s in
          let ez : z ≡ x = ground arith in
          let et : y ∷ r ≡ rest = ground arith in
          (
            y ∷ before,
            after,
            ap (λ l. y ∷ l) (rw (← ez) ex),
            ground arith,
            rw (← ez) px,
            (f, none_before),
          )
    ]
  ]

  pub take_first-none : (xs : List E) → take_first p xs ≡ none → All (λ y. p y ≡ false) xs
  unfolding take_first
  take_first-none [] h = tt
  take_first-none (y ∷ ys) h = elim (Bool-cases (p y)) [
    | inl t ↦ absurd (ground arith)
    | inr f ↦ (f, take_first-none ys (ground arith))
  ]

  -- Nothing that satisfies the predicate is kept, and what is not kept is counted.
  pub keep_others_lem :
      (xs : List E)
      → All (λ y. p y ≡ false) (keep_others p xs)
        × (length (keep_others p xs) + count_matching p xs ≡ length xs)
  unfolding keep_others count_matching
  keep_others_lem [] = (tt, omega arith)
  keep_others_lem (y ∷ ys) =
      let (a, n) = keep_others_lem ys in
      elim (Bool-cases (p y)) [
        | inl t ↦ rw (t, if◌then◌else◌) (a, omega arith)
        | inr f ↦ rw (f, if◌then◌else◌) ((f, a), omega arith)
      ]

module _ {K E : Type 0} ⦃e : Eq K⦄ (p : E → Bool) where
  -- The oldest entry that satisfies the predicate is returned; the others stay in their order.
  pub pop_matching_lem :
      (d : Dict K (List E)) (k : K) {x : E} {d' : Dict K (List E)}
      → pop_matching p d k ≡ some (x, d')
      → (before after : List E) × (queue d k ≡ before ++ (x ∷ after))
        × (p x ≡ true)
        × All (λ y. p y ≡ false) before
        × ((j : K) → queue d' j ≡ (if e.beq k j then before ++ after else queue d j))
  unfolding pop_matching
  pop_matching_lem d k {x} {d'} h = elim (Option-cases (take_first p (queue d k))) [
    | inl n ↦ absurd (ground arith)
    | inr ((y, rest), s) ↦
        let ey : y ≡ x = ground arith in
        let ed : store d k rest ≡ d' = ground arith in
        let (before, after, eq, er, py, none_before) = take_first_lem p (queue d k) s in
        (
          before,
          after,
          rw (← ey) eq,
          rw (← ey) py,
          none_before,
          λ j. rw (← ed, ← er) (queue-store d k j rest),
        )
  ]

  pub pop_matching-none :
      (d : Dict K (List E)) (k : K) → pop_matching p d k ≡ none → All (λ y. p y ≡ false) (queue d k)
  unfolding pop_matching
  pop_matching-none d k h = take_first-none p (queue d k) (ground arith)

  pub queue-discard_matching :
      (d : Dict K (List E)) (k j : K)
      → queue (discard_matching p d k).0 j
        ≡ (if e.beq k j then keep_others p (queue d k) else queue d j)
  unfolding discard_matching keep_others
  queue-discard_matching d k j =
      ground (arith, queue-store d k j (keep_others p (queue d k)), e.beq_iff k j)

  pub discard_matching-count :
      (d : Dict K (List E)) (k : K) → (discard_matching p d k).1 ≡ count_matching p (queue d k)
  unfolding discard_matching count_matching
  discard_matching-count d k = ground arith
