-- ===== src/Handler/Queues/Tidy.antt =====
-- The invariant of the queues: no key holds an empty list, and what a key holds belongs to it.
use rose_esp.Prelude.{
  ℕ, ◌≡◌, ◌≢◌, refl, Bool, Option, none, some, List, [], ◌∷◌, ◌++◌, arith, All, All-append,
  Option-cases, Bool-cases, inl, inr, if◌then◌else◌,
}
use mathlib.Core.Path.{subst}
use rose_esp.Prelude.Eq.{Eq}
use rose_esp.Prelude.Dict.{Dict, get, put, remove, get-put, get-remove}
use rose_esp.Handler.Queues.{
  take_first, count_matching, keep_others, queue, push, store, pop_matching, pop_first,
  discard_matching,
}

module _ {E : Type 0} (p : E → Bool) (Q : E → Type 0) where
  take_first-All :
      (xs : List E) {x : E} {rest : List E}
      → take_first p xs ≡ some (x, rest)
      → All Q xs
      → Q x × All Q rest
  unfolding take_first
  take_first-All [] h a = cc
  take_first-All (y ∷ ys) {x} {rest} h a = elim (Bool-cases (p y)) [
    | inl t ↦
        let ex : y ≡ x = ground arith in
        let er : ys ≡ rest = ground arith in (rw (← ex) a.0, rw (← er) a.1)
    | inr f ↦ elim (Option-cases (take_first p ys)) [
      | inl n ↦ absurd (ground arith)
      | inr ((z, r), s) ↦
          let (qz, qr) = take_first-All ys s a.1 in
          let ez : z ≡ x = ground arith in
          let er : y ∷ r ≡ rest = ground arith in (rw (← ez) qz, subst (All Q) er (a.0, qr))
    ]
  ]

  keep_others-All : (xs : List E) → All Q xs → All Q (keep_others p xs)
  unfolding keep_others
  keep_others-All [] a = tt
  keep_others-All (y ∷ ys) a = elim (Bool-cases (p y)) [
    | inl t ↦ rw (t, if◌then◌else◌) (keep_others-All ys a.1)
    | inr f ↦ rw (f, if◌then◌else◌) (a.0, keep_others-All ys a.1)
  ]

module _ {K E : Type 0} ⦃e : Eq K⦄ (P : K → E → Type 0) where
  pub record IsTidy (d : Dict K (List E)) : Type 0 where
    pub used : (k : K) → get d k ≢ some []
    pub keyed : (k : K) → All (P k) (queue d k)

  pub IsTidy-empty : IsTidy []
  unfolding get queue
  IsTidy-empty = record { used = λ k h. cc; keyed = λ k. tt }

  queue-put :
      (d : Dict K (List E)) (k j : K) (es : List E)
      → queue (put d k es) j ≡ (if e.beq k j then es else queue d j)
  unfolding queue
  queue-put d k j es = ground (arith, get-put d k j es)

  queue-remove :
      (d : Dict K (List E)) (k j : K) → queue (remove d k) j ≡ (if e.beq k j then [] else queue d j)
  unfolding queue
  queue-remove d k j = ground (arith, get-remove d k j)

  IsTidy-put :
      (d : Dict K (List E)) (k : K) (x : E) (xs : List E)
      → IsTidy d
      → All (P k) (x ∷ xs)
      → IsTidy (put d k (x ∷ xs))
  IsTidy-put d k x xs t h = record {
    used = λ j n. ground (arith, get-put d k j (x ∷ xs), t.used j);
    keyed = λ j. elim (Bool-cases (e.beq k j)) [
      | inl same ↦
          rw (queue-put d k j (x ∷ xs), same)
            (subst (λ i. All (P i) (x ∷ xs)) ((e.beq_iff k j).0 same) h)
      | inr other ↦ rw (queue-put d k j (x ∷ xs), other) (t.keyed j)
    ];
  }

  IsTidy-remove : (d : Dict K (List E)) (k : K) → IsTidy d → IsTidy (remove d k)
  IsTidy-remove d k t = record {
    used = λ j n. ground (arith, get-remove d k j, t.used j);
    keyed = λ j. elim (Bool-cases (e.beq k j)) [
      | inl same ↦ rw (queue-remove d k j, same) tt
      | inr other ↦ rw (queue-remove d k j, other) (t.keyed j)
    ];
  }

  pub IsTidy-store :
      (d : Dict K (List E)) (k : K) (es : List E) → IsTidy d → All (P k) es → IsTidy (store d k es)
  unfolding store
  IsTidy-store d k [] t h = IsTidy-remove d k t
  IsTidy-store d k (x ∷ xs) t h = IsTidy-put d k x xs t h

  snoc-IsTidy :
      (d : Dict K (List E)) (k : K) (x : E) (es : List E)
      → IsTidy d
      → All (P k) (es ++ x ∷ [])
      → IsTidy (put d k (es ++ x ∷ []))
  snoc-IsTidy d k x [] t h = IsTidy-put d k x [] t h
  snoc-IsTidy d k x (y ∷ ys) t h = IsTidy-put d k y (ys ++ x ∷ []) t h

  pub IsTidy-push : (d : Dict K (List E)) (k : K) (x : E) → IsTidy d → P k x → IsTidy (push d k x)
  unfolding push
  IsTidy-push d k x t h =
      snoc-IsTidy d k x (queue d k) t (All-append (P k) (queue d k) (x ∷ []) (t.keyed k) (h, tt))

  -- What is popped belongs to its key, and the invariant stays.
  pub pop_first-IsTidy :
      (d : Dict K (List E)) (k : K) {x : E} {d' : Dict K (List E)}
      → IsTidy d
      → pop_first d k ≡ some (x, d')
      → P k x × IsTidy d'
  unfolding pop_first
  pop_first-IsTidy d k {x} {d'} t h = popped (queue d k) refl h
    where
      popped :
          (es : List E)
          → queue d k ≡ es
          → Path
              (Option (E × Dict K (List E)))
              (elim es [ [] ↦ none | x ∷ rest ↦ some (x, store d k rest) ])
              (some (x, d'))
          → P k x × IsTidy d'
      popped [] q h = cc
      popped (y ∷ ys) q h =
          let all : All (P k) (y ∷ ys) = rw q at (t.keyed k) in
          let ey : y ≡ x = ground arith in
          let ed : store d k ys ≡ d' = ground arith in
          (rw (← ey) all.0, rw (← ed) (IsTidy-store d k ys t all.1))

  pub pop_matching-IsTidy :
      (p : E → Bool) (d : Dict K (List E)) (k : K) {x : E} {d' : Dict K (List E)}
      → IsTidy d
      → pop_matching p d k ≡ some (x, d')
      → P k x × IsTidy d'
  unfolding pop_matching
  pop_matching-IsTidy p d k {x} {d'} t h = elim (Option-cases (take_first p (queue d k))) [
    | inl n ↦ absurd (ground arith)
    | inr ((y, rest), s) ↦
        let ey : y ≡ x = ground arith in
        let ed : store d k rest ≡ d' = ground arith in
        let (py, all) = take_first-All p (P k) (queue d k) s (t.keyed k) in
        (rw (← ey) py, rw (← ed) (IsTidy-store d k rest t all))
  ]

  pub discard_matching-IsTidy :
      (p : E → Bool) (d : Dict K (List E)) (k : K) → IsTidy d → IsTidy (discard_matching p d k).0
  unfolding discard_matching
  discard_matching-IsTidy p d k t = discarded (queue d k) (t.keyed k)
    where
      discarded :
          (es : List E)
          → All (P k) es
          → IsTidy
              (elim es as (λ _. Dict K (List E) × ℕ) [
                | [] ↦ (d, 0)
                | x ∷ xs ↦ (store d k (keep_others p (x ∷ xs)), count_matching p (x ∷ xs))
              ]).0
      discarded [] a = t
      discarded (x ∷ xs) a =
          IsTidy-store d k (keep_others p (x ∷ xs)) t (keep_others-All p (P k) (x ∷ xs) a)
