-- ===== src/Client/Resolution.antt =====
-- The software glitch filter of bridge/src/client.py: `resolve_resolution_us` and
-- `apply_resolution`. An edge is a level and a duration.
pub mod Totals
use Prim.Native.String.{String}
use text.Mathlib.Text.{◌==◌ as str_eq}
use rose_esp.Prelude.{Bool, true, false, ◌||◌, List, [], ◌∷◌, is_empty, if◌then◌else◌}
use rose_esp.Prelude.Int.{ℤ, pos, ltb_ℤ, eqb_ℤ, ◌+ℤ◌}

abbrev pub Edge : Type 0
Edge = ℤ × ℤ

-- `int | str | None`
pub data Resolution : Type 0 where
  unset : Resolution
  preset : String → Resolution
  micros : ℤ → Resolution

-- `RESOLUTION_PRESETS.get(name, 1)`
unfoldable pub preset_us : String → ℤ
preset_us name =
    if str_eq name "exact"
    then pos 1
    else if str_eq name "fine"
    then pos 5
    else if str_eq name "normal"
    then pos 20
    else if str_eq name "coarse"
    then pos 100
    else pos 1

-- `resolution.strip().lower()` is a parameter.
module _ (strip_lower : String → String) where
  unfoldable pub resolve_resolution_us : Resolution → ℤ
  resolve_resolution_us unset = pos 1
  resolve_resolution_us (preset name) = preset_us (strip_lower name)
  resolve_resolution_us (micros n) = if ltb_ℤ (pos 1) n then n else pos 1

-- The loop keeps `merged` with its last edge first.

-- A glitch: into the last kept edge, or into the carry.
unfoldable pub fold_glitch : ℤ → List Edge → ℤ → List Edge × ℤ
fold_glitch duration [] carry = ([], carry +ℤ duration)
fold_glitch duration ((plevel, pdur) ∷ merged) carry = ((plevel, pdur +ℤ duration) ∷ merged, carry)

-- An edge that is wide enough: of the last kept edge's level, or a new one.
unfoldable pub keep_edge : ℤ → ℤ → List Edge → List Edge
keep_edge level duration [] = (level, duration) ∷ []
keep_edge level duration ((plevel, pdur) ∷ merged) =
    if eqb_ℤ plevel level
    then (plevel, pdur +ℤ duration) ∷ merged
    else (level, duration) ∷ (plevel, pdur) ∷ merged

-- One round of the loop.
unfoldable pub merge_edge : ℤ → Edge → List Edge → ℤ → List Edge × ℤ
merge_edge resolution_us (level, duration) merged carry =
    if ltb_ℤ duration resolution_us
    then fold_glitch duration merged carry
    else (keep_edge level (duration +ℤ carry) merged, pos 0)

unfoldable pub merge_loop : ℤ → List Edge → List Edge → ℤ → List Edge × ℤ
merge_loop resolution_us [] merged carry = (merged, carry)
merge_loop resolution_us (edge ∷ edges) merged carry =
    let (merged', carry') = merge_edge resolution_us edge merged carry in
    merge_loop resolution_us edges merged' carry'

abbrev pub reverse_onto : List Edge → List Edge → List Edge
reverse_onto [] acc = acc
reverse_onto (e ∷ es) acc = reverse_onto es (e ∷ acc)

-- `if carry and merged: merged[0] = …`, on the list with its first edge first.
unfoldable pub fold_carry : ℤ → List Edge → List Edge
fold_carry carry [] = []
fold_carry carry ((flevel, fdur) ∷ merged) =
    if eqb_ℤ carry (pos 0) then (flevel, fdur) ∷ merged else (flevel, fdur +ℤ carry) ∷ merged

unfoldable pub apply_resolution : List Edge → ℤ → List Edge
unfolding merge_loop fold_carry
apply_resolution edges resolution_us =
    if ltb_ℤ resolution_us (pos 2) || is_empty edges
    then edges
    else (let (merged, carry) = merge_loop resolution_us edges [] (pos 0) in
        fold_carry carry (reverse_onto merged []))
