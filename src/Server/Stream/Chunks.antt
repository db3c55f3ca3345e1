-- ===== src/Server/Stream/Chunks.antt =====
-- The cut into frames does not depend on how the stream is cut into chunks.
use rose_esp.Prelude.{
  ℕ, zero, suc, ◌+◌, ◌≤◌, ◌<◌, ◌≡◌, ◌∙◌, sym, ap, append-nil, append_assoc, false, Option, none,
  some, List, [], ◌∷◌, ◌++◌, arith, length, take, drop, ltb, length-append, take-append_le,
  drop-append_le, Option-cases, Bool-cases, length-take, inl, inr,
}
use rose_esp.Prelude.Int.{ℤ, pos_part}
use rose_esp.Prelude.Result.{ok}
use rose_esp.Struct.{Bytes}
use rose_esp.Protocol.Frame.{MessageFrame}
use rose_esp.Protocol.Frame.RoundTrip.{from_bytes_total}
use rose_esp.Server.Stream.Rounds.{scan-shrinks, process_step, process_stop, process_done}
use rose_esp.Server.Stream.{
  Callback, peek_length, dispatch, deliver, extract, scan, process, receive,
}

-- The callback never raises.
abbrev pub Quiet : {S : Type 0} → Option (Callback S) → Type 0
Quiet none = Unit
Quiet {S} (some f) = (s : S) (frame : MessageFrame) → (f s frame).1 ≡ false

pub dispatch-Quiet :
    {S : Type 0} (callback : Option (Callback S)) (s : S) (frame : MessageFrame)
    → Quiet callback
    → (dispatch callback s frame).1 ≡ false
unfolding dispatch
dispatch-Quiet none s frame q = ground arith
dispatch-Quiet (some f) s frame q = ground (arith, q s frame)

module _ {S : Type 0} (callback : Option (Callback S)) where
  pub peek_length-append :
      (buffer more : Bytes) → 8 ≤ length buffer → peek_length (buffer ++ more) ≡ peek_length buffer
  unfolding peek_length
  peek_length-append buffer more h = rw (take-append_le 8 buffer more h)

  deliver-append :
      Quiet callback
      → (s : S) (rest more : Bytes) (frame : MessageFrame)
      → deliver callback s (rest ++ more) (ok frame)
        ≡ ((deliver callback s rest (ok frame)).0, (deliver callback s rest (ok frame)).1 ++ more)
  unfolding deliver
  deliver-append q s rest more frame = ground (arith, dispatch-Quiet callback s frame q)

  extract-append :
      (s : S) (buffer more : Bytes) (l : Option ℤ) {s' : S} {rest : Bytes}
      → Quiet callback
      → 8 ≤ length buffer
      → extract callback s buffer l ≡ some (s', rest)
      → extract callback s (buffer ++ more) l ≡ some (s', rest ++ more)
  unfolding extract
  extract-append s buffer more none q b h =
      ground (arith, drop-append_le 1 buffer more (omega arith))
  extract-append s buffer more (some l) q b h =
      elim (Bool-cases (ltb (length buffer) (8 + pos_part l))) [
        | inl short ↦
            ground (arith, length-append buffer more, drop-append_le 1 buffer more (omega arith))
        | inr long ↦
            let n = 8 + pos_part l in
            let fits : n ≤ length buffer = ground arith in
            let (frame, e) =
              from_bytes_total (take n buffer) (omega (arith, length-take n buffer)) in
            ground (
              arith,
              e,
              length-append buffer more,
              drop-append_le 1 buffer more (omega arith),
              drop-append_le n buffer more fits,
              take-append_le n buffer more fits,
              deliver-append q s (drop n buffer) more frame,
            )
      ]

  -- A round that can be made is made the same way when more bytes follow.
  pub scan-append :
      (s : S) (buffer more : Bytes) {s' : S} {rest : Bytes}
      → Quiet callback
      → scan callback s buffer ≡ some (s', rest)
      → scan callback s (buffer ++ more) ≡ some (s', rest ++ more)
  unfolding scan
  scan-append s buffer more {s'} {rest} q h = ground (
    arith,
    length-append buffer more,
    peek_length-append buffer more,
    extract-append s buffer more (peek_length buffer) {s' = s'} {rest = rest} q,
  )

  process-append_fuel :
      (fuel : ℕ) (s : S) (buffer more : Bytes)
      → Quiet callback
      → length buffer < fuel
      → process callback s (buffer ++ more)
        ≡ process callback (process callback s buffer).0 ((process callback s buffer).1 ++ more)
  process-append_fuel zero s buffer more q h = absurd (omega arith)
  process-append_fuel (suc fuel) s buffer more q h = elim (Option-cases (scan callback s buffer)) [
    | inl e ↦ rw (process_stop callback s buffer e)
    | inr ((s', rest), e) ↦
        rw
          (
            process_step callback s buffer e,
            process_step callback s (buffer ++ more) (scan-append s buffer more q e),
          )
          (process-append_fuel fuel s' rest more q
            (omega (arith, scan-shrinks callback s buffer e)))
  ]

  -- If the callback never raises, to process a buffer and then its rest with more bytes behind it
  -- is to process all the bytes at once.
  pub process-append :
      (s : S) (buffer more : Bytes)
      → Quiet callback
      → process callback s (buffer ++ more)
        ≡ process callback (process callback s buffer).0 ((process callback s buffer).1 ++ more)
  process-append s buffer more q =
      process-append_fuel (suc (length buffer)) s buffer more q (omega arith)

  abbrev pub join : List Bytes → Bytes
  join [] = []
  join (chunk ∷ chunks) = chunk ++ join chunks

  -- If the callback never raises, and nothing is left to do in the buffer, then the chunks in
  -- which the stream arrives do not matter: the state, the events delivered and the bytes left over
  -- are those of the whole stream processed at once.
  pub receive-eq-process :
      (s : S) (buffer : Bytes) (chunks : List Bytes)
      → Quiet callback
      → scan callback s buffer ≡ none
      → receive callback s buffer chunks ≡ process callback s (buffer ++ join chunks)
  unfolding receive
  receive-eq-process s buffer [] q h = rw (append-nil buffer, process_stop callback s buffer h)
  receive-eq-process s buffer (chunk ∷ chunks) q h =
      let (s', rest) = process callback s (buffer ++ chunk) in
      receive-eq-process s' rest chunks q (process_done callback s (buffer ++ chunk))
      ∙ sym (process-append s (buffer ++ chunk) (join chunks) q)
      ∙ ap (process callback s) (append_assoc buffer chunk (join chunks))
