-- ===== src/Integration/Dht11/Edges.antt =====
-- Which edges of a capture the decoder reads.
use rose_esp.Prelude.{
  ℕ, ◌<◌, ◌≡◌, refl, Bool, true, false, ◌&&◌, List, [], ◌∷◌, ◌++◌, arith, length, length-append,
  if◌then◌else◌, ◌==◌, ==_iff, Bool-cases, inl, inr,
}
use rose_esp.Prelude.Int.{ℤ, pos, negsuc, eqb_ℤ}
use rose_esp.Prelude.Result.{ok}
use rose_esp.Integration.Dht11.{Edge, get_or, high_pulse, collect, decode_dht11_signal}

abbrev is_high : Edge → Bool
is_high edge = eqb_ℤ (get_or edge.level (negsuc 0)) (pos 1)

abbrev pub high_edges : List Edge → List Edge
high_edges [] = []
high_edges (edge ∷ edges) = if is_high edge then edge ∷ high_edges edges else high_edges edges

collect-low :
    (edge : Edge) (edges : List Edge) (started : Bool) (pulses : List ℤ)
    → is_high edge ≡ false
    → collect (edge ∷ edges) started pulses ≡ collect edges started pulses
unfolding collect
collect-low edge edges started pulses h = rw (h, if◌then◌else◌)

-- The state after a high edge.
abbrev after_high : Edge → Bool → List ℤ → Bool × List ℤ
after_high edge started pulses = high_pulse (get_or edge.duration_us (pos 0)) started pulses

collect-high :
    (edge : Edge) (edges : List Edge) (started : Bool) (pulses : List ℤ)
    → is_high edge ≡ true
    → let (started', pulses') = after_high edge started pulses in
      collect (edge ∷ edges) started pulses
      ≡ (if started && (length pulses' == 40) then pulses' else collect edges started' pulses')
unfolding collect
collect-high edge edges started pulses h = rw (h, if◌then◌else◌)

-- Either the loop ends at this edge, with forty pulses, or it goes on with fewer.
after_high-cases :
    (edge : Edge) (started : Bool) (pulses : List ℤ)
    → length pulses < 40
    → let (_, pulses') = after_high edge started pulses in
      ((started && (length pulses' == 40)) ≡ false → length pulses' < 40)
unfolding high_pulse
after_high-cases edge false pulses h = λ e. h
after_high-cases edge true pulses h =
    ground (arith, length-append pulses (get_or edge.duration_us (pos 0) ∷ []))

collect-append :
    (edges more : List Edge) (started : Bool) (pulses : List ℤ)
    → length pulses < 40
    → length (collect edges started pulses) ≡ 40
    → collect (edges ++ more) started pulses ≡ collect edges started pulses
collect-append [] more started pulses h e = absurd (unfold collect in omega arith)
collect-append (edge ∷ edges) more started pulses h e = elim (Bool-cases (is_high edge)) [
  | inr low ↦
      let e' = rw (collect-low edge edges started pulses low) at e in
      rw
        (
          collect-low edge edges started pulses low,
          collect-low edge (edges ++ more) started pulses low,
        )
        (collect-append edges more started pulses h e')
  | inl high ↦
      let (started', pulses') = after_high edge started pulses in
      let e' = rw (collect-high edge edges started pulses high) at e in
      rw
        (
          collect-high edge edges started pulses high,
          collect-high edge (edges ++ more) started pulses high,
        )
        (elim (Bool-cases (started && (length pulses' == 40))) [
          | inl ends ↦ rw (ends, if◌then◌else◌)
          | inr goes ↦
              rw (goes, if◌then◌else◌)
                (collect-append edges more started' pulses'
                  (after_high-cases edge started pulses h goes) (rw (goes, if◌then◌else◌) at e'))
        ])
]

collect-high_edges :
    (edges : List Edge) (started : Bool) (pulses : List ℤ)
    → collect (high_edges edges) started pulses ≡ collect edges started pulses
collect-high_edges [] started pulses = refl
collect-high_edges (edge ∷ edges) started pulses = elim (Bool-cases (is_high edge)) [
  | inr low ↦
      rw (low, if◌then◌else◌, collect-low edge edges started pulses low)
        (collect-high_edges edges started pulses)
  | inl high ↦
      let (started', pulses') = after_high edge started pulses in
      rw (high, if◌then◌else◌)
        (rw (
          collect-high edge edges started pulses high,
          collect-high edge (high_edges edges) started pulses high,
          collect-high_edges edges started' pulses',
        ))
]

module _ {F : Type 0} (tenths : ℕ → ℕ → F) (negate : F → F) where
  -- The low edges of a capture, and those without a level, do not matter to the decoder.
  pub decode_dht11_signal-high_edges :
      (edges : List Edge)
      → decode_dht11_signal tenths negate (high_edges edges)
        ≡ decode_dht11_signal tenths negate edges
  unfolding decode_dht11_signal
  decode_dht11_signal-high_edges edges = rw (collect-high_edges edges false [])

  forty :
      (edges : List Edge) {r : F × F}
      → decode_dht11_signal tenths negate edges ≡ ok r
      → length (collect edges false []) ≡ 40
  unfolding decode_dht11_signal
  forty edges h = ground (arith, ==_iff (length (collect edges false [])) 40)

  -- If a capture is decoded, then it is decoded to the same values whatever edges follow.
  pub decode_dht11_signal-append :
      (edges more : List Edge) {r : F × F}
      → decode_dht11_signal tenths negate edges ≡ ok r
      → decode_dht11_signal tenths negate (edges ++ more) ≡ ok r
  unfolding decode_dht11_signal
  decode_dht11_signal-append edges more h =
      rw (collect-append edges more false [] (omega arith) (forty edges h)) h
