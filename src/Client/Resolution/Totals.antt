-- ===== src/Client/Resolution/Totals.antt =====
-- The filter keeps the total duration, if it keeps an edge at all.
use rose_esp.Prelude.{
  zero, suc, ◌≡◌, ◌∙◌, sym, ap, refl, Bool, true, false, ◌||◌, List, [], ◌∷◌, arith, is_empty, not,
  Bool-cases, inl, inr, if◌then◌else◌,
}
use rose_esp.Prelude.Int.{ℤ, pos, negsuc, ltb_ℤ, eqb_ℤ, ◌+ℤ◌, ◌≤ℤ◌, +ℤ_assoc, +ℤ_zero, int_laws}
use rose_esp.Client.Resolution.{
  Edge, fold_glitch, keep_edge, merge_edge, merge_loop, reverse_onto, fold_carry, apply_resolution,
}

pub total : List Edge → ℤ
total [] = pos 0
total ((level, duration) ∷ edges) = duration +ℤ total edges

abbrev IsNil : List Edge → Type 0
IsNil es = is_empty es ≡ true

-- Outside a leading run of glitches nothing is carried.
abbrev Carried : List Edge → ℤ → Type 0
Carried [] carry = Unit
Carried (e ∷ es) carry = carry ≡ pos 0

fold_glitch-total :
    (duration : ℤ) (merged : List Edge) (carry : ℤ)
    → Carried merged carry
    → let (merged', carry') = fold_glitch duration merged carry in
      Carried merged' carry' × (total merged' +ℤ carry' ≡ (total merged +ℤ carry) +ℤ duration)
unfolding fold_glitch total
fold_glitch-total duration [] carry h = (tt, omega int_laws)
fold_glitch-total duration ((plevel, pdur) ∷ merged) carry h = (h, omega int_laws)

keep_edge-total :
    (level duration : ℤ) (merged : List Edge)
    → (is_empty (keep_edge level duration merged) ≡ false)
      × (total (keep_edge level duration merged) ≡ total merged +ℤ duration)
unfolding keep_edge total
keep_edge-total level duration [] = (refl, omega int_laws)
keep_edge-total level duration ((plevel, pdur) ∷ merged) = elim (Bool-cases (eqb_ℤ plevel level)) [
  | inl t ↦ rw (t, if◌then◌else◌) (refl, omega int_laws)
  | inr f ↦ rw (f, if◌then◌else◌) (refl, omega int_laws)
]

Carried-zero : (merged : List Edge) → Carried merged (pos 0)
Carried-zero [] = tt
Carried-zero (e ∷ es) = refl

-- One round moves the duration of its edge into the merged edges or the carry.
merge_edge-total :
    (r level duration : ℤ) (merged : List Edge) (carry : ℤ)
    → Carried merged carry
    → let (merged', carry') = merge_edge r (level, duration) merged carry in
      Carried merged' carry' × (total merged' +ℤ carry' ≡ (total merged +ℤ carry) +ℤ duration)
unfolding merge_edge
merge_edge-total r level duration merged carry h = elim (Bool-cases (ltb_ℤ duration r)) [
  | inl t ↦ rw (t, if◌then◌else◌) (fold_glitch-total duration merged carry h)
  | inr f ↦
      let kept = keep_edge-total level (duration +ℤ carry) merged in
      rw (f, if◌then◌else◌) (Carried-zero _, rw kept.1 (omega int_laws))
]

merge_loop-total :
    (r : ℤ) (edges merged : List Edge) (carry : ℤ)
    → Carried merged carry
    → let (merged', carry') = merge_loop r edges merged carry in
      Carried merged' carry' × (total merged' +ℤ carry' ≡ (total merged +ℤ carry) +ℤ total edges)
unfolding merge_loop total
merge_loop-total r [] merged carry h = (h, omega int_laws)
merge_loop-total r ((level, duration) ∷ edges) merged carry h =
    let (h', e) = merge_edge-total r level duration merged carry h in
    let (merged', carry') = merge_edge r (level, duration) merged carry in
    let (h'', e') = merge_loop-total r edges merged' carry' h' in
    (
      h'',
      e' ∙ ap (λ x. x +ℤ total edges) e ∙ +ℤ_assoc (total merged +ℤ carry) duration (total edges),
    )

total-reverse_onto : (es acc : List Edge) → total (reverse_onto es acc) ≡ total es +ℤ total acc
unfolding total
total-reverse_onto [] acc = omega int_laws
total-reverse_onto ((level, duration) ∷ es) acc =
    total-reverse_onto es ((level, duration) ∷ acc) ∙ omega int_laws

-- The last statement of the function has nothing to do: an edge that is kept takes the carry.
fold_carry-zero : (es : List Edge) → fold_carry (pos 0) es ≡ es
unfolding fold_carry
fold_carry-zero [] = refl
fold_carry-zero ((level, duration) ∷ es) = refl

-- Some edge is at least as long as the resolution.
pub has_wide : ℤ → List Edge → Bool
has_wide r [] = false
has_wide r ((level, duration) ∷ edges) = not (ltb_ℤ duration r) || has_wide r edges

merge_edge-keeps :
    (r level duration : ℤ) (merged : List Edge) (carry : ℤ)
    → is_empty merged ≡ false
    → is_empty (merge_edge r (level, duration) merged carry).0 ≡ false
unfolding merge_edge fold_glitch
merge_edge-keeps r level duration [] carry h = cc
merge_edge-keeps r level duration ((plevel, pdur) ∷ merged) carry h =
    let kept = keep_edge-total level (duration +ℤ carry) ((plevel, pdur) ∷ merged) in
    elim (Bool-cases (ltb_ℤ duration r)) [
      | inl t ↦ rw (t, if◌then◌else◌)
      | inr f ↦ rw (f, if◌then◌else◌) kept.0
    ]

merge_loop-keeps :
    (r : ℤ) (edges merged : List Edge) (carry : ℤ)
    → is_empty merged ≡ false
    → is_empty (merge_loop r edges merged carry).0 ≡ false
unfolding merge_loop
merge_loop-keeps r [] merged carry h = h
merge_loop-keeps r ((level, duration) ∷ edges) merged carry h =
    let (merged', carry') = merge_edge r (level, duration) merged carry in
    merge_loop-keeps r edges merged' carry' (merge_edge-keeps r level duration merged carry h)

merge_edge_narrow :
    (r level duration carry : ℤ)
    → ltb_ℤ duration r ≡ true
    → merge_edge r (level, duration) [] carry ≡ ([], carry +ℤ duration)
unfolding merge_edge fold_glitch
merge_edge_narrow r level duration carry t = rw (t, if◌then◌else◌)

merge_edge_wide :
    (r level duration carry : ℤ)
    → ltb_ℤ duration r ≡ false
    → merge_edge r (level, duration) [] carry ≡ ((level, duration +ℤ carry) ∷ [], pos 0)
unfolding merge_edge keep_edge
merge_edge_wide r level duration carry f = rw (f, if◌then◌else◌)

has_wide_narrow :
    (r level duration : ℤ) (edges : List Edge)
    → ltb_ℤ duration r ≡ true
    → has_wide r ((level, duration) ∷ edges) ≡ has_wide r edges
unfolding has_wide
has_wide_narrow r level duration edges t = rw t

has_wide_wide :
    (r level duration : ℤ) (edges : List Edge)
    → ltb_ℤ duration r ≡ false
    → has_wide r ((level, duration) ∷ edges) ≡ true
unfolding has_wide
has_wide_wide r level duration edges f = rw f

merge_loop_step :
    (r : ℤ) (edge : Edge) (edges merged : List Edge) (carry : ℤ)
    → let (merged', carry') = merge_edge r edge merged carry in
      merge_loop r (edge ∷ edges) merged carry ≡ merge_loop r edges merged' carry'
unfolding merge_loop
merge_loop_step r edge edges merged carry = refl

-- An edge is kept exactly if there is one that is wide enough.
merge_loop-is_empty :
    (r : ℤ) (edges : List Edge) (carry : ℤ)
    → is_empty (merge_loop r edges [] carry).0 ≡ not (has_wide r edges)
merge_loop-is_empty r [] carry = unfold merge_loop has_wide in refl
merge_loop-is_empty r ((level, duration) ∷ edges) carry = elim (Bool-cases (ltb_ℤ duration r)) [
  | inl t ↦
      rw
        (
          merge_loop_step,
          merge_edge_narrow r level duration carry t,
          has_wide_narrow r level duration edges t,
        )
        (merge_loop-is_empty r edges (carry +ℤ duration))
  | inr f ↦
      rw
        (
          merge_loop_step,
          merge_edge_wide r level duration carry f,
          has_wide_wide r level duration edges f,
        )
        (merge_loop-keeps r edges _ (pos 0) refl)
]

fold_carry-Carried :
    (merged : List Edge) (carry : ℤ)
    → Carried merged carry
    → fold_carry carry (reverse_onto merged []) ≡ reverse_onto merged []
fold_carry-Carried [] carry h = unfold fold_carry in refl
fold_carry-Carried (e ∷ es) carry h = rw h (fold_carry-zero _)

-- Above a resolution of one microsecond, the function's last statement, which folds a carry that
-- is left at the end into the first edge, changes nothing: the result is what the loop merged.
pub apply_resolution-eq :
    (edges : List Edge) (r : ℤ)
    → pos 2 ≤ℤ r
    → apply_resolution edges r ≡ reverse_onto (merge_loop r edges [] (pos 0)).0 []
unfolding apply_resolution merge_loop
apply_resolution-eq [] r h = ground arith
apply_resolution-eq (e ∷ es) r h =
    let wide : ltb_ℤ r (pos 2) ≡ false = ground arith in
    let (carried, _) = merge_loop-total r (e ∷ es) [] (pos 0) tt in
    rw (wide, if◌then◌else◌) (fold_carry-Carried _ _ carried)

kept_sum : (sum carry all : ℤ) → carry ≡ pos 0 → sum +ℤ carry ≡ (pos 0 +ℤ pos 0) +ℤ all → sum ≡ all
kept_sum sum (pos zero) all z s =
    let front : (pos 0 +ℤ pos 0) +ℤ all ≡ all = omega int_laws in sym (+ℤ_zero sum) ∙ s ∙ front
kept_sum sum (pos (suc n)) all z s = absurd (ground arith)
kept_sum sum (negsuc n) all z s = absurd (ground arith)

-- Above a resolution of one microsecond: if some edge is at least as long as the resolution, then
-- the filtered signal has the same total duration as the signal. If none is, everything is
-- dropped, and the elapsed time is lost.
pub apply_resolution-total :
    (edges : List Edge) (r : ℤ)
    → pos 2 ≤ℤ r
    → (has_wide r edges ≡ true → total (apply_resolution edges r) ≡ total edges)
      × (has_wide r edges ≡ false → apply_resolution edges r ≡ [])
unfolding total
apply_resolution-total edges r h = rw (apply_resolution-eq edges r h) (
    kept (merge_loop r edges [] (pos 0)).0 (merge_loop r edges [] (pos 0)).1
      (merge_loop-total r edges [] (pos 0) tt) (merge_loop-is_empty r edges (pos 0)))
  where
    kept :
        (merged : List Edge) (carry : ℤ)
        → Carried merged carry × (total merged +ℤ carry ≡ (total [] +ℤ pos 0) +ℤ total edges)
        → is_empty merged ≡ not (has_wide r edges)
        → (has_wide r edges ≡ true → total (reverse_onto merged []) ≡ total edges)
          × (has_wide r edges ≡ false → reverse_onto merged [] ≡ [])
    kept [] carry s e = (λ w. absurd (ground arith), λ n. refl)
    kept (x ∷ xs) carry (z, s) e = (
      λ w. total-reverse_onto (x ∷ xs) [] ∙ +ℤ_zero (total (x ∷ xs)) ∙ kept_sum _ carry _ z s,
      λ n. absurd (ground arith),
    )
