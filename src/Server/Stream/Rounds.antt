-- ===== src/Server/Stream/Rounds.antt =====
-- The rounds of the loop that cuts frames: each takes a byte at least, so the fuel is enough.
use rose_esp.Prelude.{
  ℕ, zero, suc, ◌+◌, ◌≤◌, ◌<◌, ◌≡◌, refl, Option, none, some, [], ◌∷◌, arith, length, take, drop,
  length-drop, Option-cases, inl, inr,
}
use rose_esp.Prelude.Int.{ℤ, pos_part}
use rose_esp.Prelude.Result.{Result, ok, err}
use rose_esp.Struct.{Bytes}
use rose_esp.Protocol.Frame.{MessageFrame, from_bytes}
use rose_esp.Server.Stream.{Callback, peek_length, deliver, extract, scan, scan_loop, process}

module _ {S : Type 0} (callback : Option (Callback S)) where
  deliver-shrinks :
      (s : S) (rest : Bytes) (r : Result MessageFrame)
      → length (deliver callback s rest r).1 ≤ length rest
  unfolding deliver
  deliver-shrinks s rest (err e) = omega (arith, length-drop 1 rest)
  deliver-shrinks s rest (ok f) = ground (arith, length-drop 1 rest)

  extract-shrinks :
      (s : S) (buffer : Bytes) (l : Option ℤ) {s' : S} {rest : Bytes}
      → 8 ≤ length buffer
      → extract callback s buffer l ≡ some (s', rest)
      → length rest < length buffer
  unfolding extract
  extract-shrinks s buffer none b h = ground (arith, length-drop 1 buffer)
  extract-shrinks s buffer (some l) b h =
      let n = 8 + pos_part l in
      ground (
        arith,
        length-drop 1 buffer,
        length-drop n buffer,
        deliver-shrinks s (drop n buffer) (from_bytes (take n buffer)),
      )

  -- Every round takes a byte at least.
  pub scan-shrinks :
      (s : S) (buffer : Bytes) {s' : S} {rest : Bytes}
      → scan callback s buffer ≡ some (s', rest)
      → length rest < length buffer
  unfolding scan
  scan-shrinks s buffer {s'} {rest} h =
      ground (arith, extract-shrinks s buffer (peek_length buffer) {s' = s'} {rest = rest})

  -- The fuel is enough: no round is left to make.
  pub scan_loop-done :
      (fuel : ℕ) (s : S) (buffer : Bytes)
      → length buffer ≤ fuel
      → let (s', rest) = scan_loop callback fuel s buffer in scan callback s' rest ≡ none
  unfolding scan_loop
  scan_loop-done zero s [] h = unfold scan in refl
  scan_loop-done zero s (b ∷ bs) h = absurd (omega arith)
  scan_loop-done (suc fuel) s buffer h = elim (Option-cases (scan callback s buffer)) [
    | inl e ↦ rw (e, scan_loop) e
    | inr ((s', rest), e) ↦
        rw (e, scan_loop) (scan_loop-done fuel s' rest (omega (arith, scan-shrinks s buffer e)))
  ]

  -- More fuel than bytes changes nothing.
  scan_loop-fuel :
      (fuel more : ℕ) (s : S) (buffer : Bytes)
      → length buffer ≤ fuel
      → fuel ≤ more
      → scan_loop callback more s buffer ≡ scan_loop callback fuel s buffer
  unfolding scan_loop
  scan_loop-fuel zero zero s buffer h k = refl
  scan_loop-fuel zero (suc more) s [] h k = unfold scan in refl
  scan_loop-fuel zero (suc more) s (b ∷ bs) h k = absurd (omega arith)
  scan_loop-fuel (suc fuel) zero s buffer h k = absurd (omega arith)
  scan_loop-fuel (suc fuel) (suc more) s buffer h k = elim (Option-cases (scan callback s buffer)) [
    | inl e ↦ rw (e, scan_loop)
    | inr ((s', rest), e) ↦
        rw (e, scan_loop)
          (scan_loop-fuel fuel more s' rest (omega (arith, scan-shrinks s buffer e)) (omega arith))
  ]

  pub process_step :
      (s : S) (buffer : Bytes) {s' : S} {rest : Bytes}
      → scan callback s buffer ≡ some (s', rest)
      → process callback s buffer ≡ process callback s' rest
  unfolding process
  process_step s [] h = unfold scan in cc
  process_step s (b ∷ bs) {s'} {rest} h =
      let less = scan-shrinks s (b ∷ bs) h in
      unfold scan_loop in
      rw (h, scan_loop)
        (scan_loop-fuel (length rest) (length bs) s' rest (omega arith) (omega arith))

  pub process_stop :
      (s : S) (buffer : Bytes)
      → scan callback s buffer ≡ none
      → process callback s buffer ≡ (s, buffer)
  unfolding process scan_loop
  process_stop s [] h = refl
  process_stop s (b ∷ bs) h = rw (h, scan_loop)

  -- When the loop stops, no round is left to make.
  pub process_done :
      (s : S) (buffer : Bytes)
      → scan callback (process callback s buffer).0 (process callback s buffer).1 ≡ none
  unfolding process
  process_done s buffer = scan_loop-done (length buffer) s buffer (omega arith)
