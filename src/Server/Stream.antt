-- ===== src/Server/Stream.antt =====
-- The inner loop of `IoTAgentServer._client_handler` (bridge/src/server.py): the buffer is cut
-- into frames, and a header that makes no sense is skipped byte by byte. The event callback is a
-- parameter: it maps the state that it works on, and says whether it raised.
pub mod Rounds
pub mod Chunks
pub mod Frames
use rose_esp.Prelude.{
  ℕ, zero, suc, ◌+◌, Bool, true, false, ◌||◌, Option, none, some, List, [], ◌∷◌, ◌++◌, length, take,
  drop, ltb, ◌==◌, if◌then◌else◌,
}
use rose_esp.Prelude.Int.{ℤ, pos, pos_part, ltb_ℤ, eqb_ℤ}
use rose_esp.Prelude.Result.{Result, ok, err}
use rose_esp.Struct.{Bytes, unpack}
use rose_esp.Protocol.Opcodes.{msg_type_event}
use rose_esp.Protocol.Frame.{MessageFrame, header_format, from_bytes}

-- `self.event_callback(frame)`: the new state, and whether the call raised.
abbrev pub Callback : Type 0 → Type 0
Callback S = S → MessageFrame → S × Bool

-- The `length` of the peeked header; `none` where `struct.unpack` would raise.
length_field : Result (List ℤ) → Option ℤ
length_field (ok (version ∷ msg_type ∷ length_ ∷ cmd_id ∷ crc ∷ [])) = some length_
length_field _ = none

unfoldable pub peek_length : Bytes → Option ℤ
unfolding length_field
peek_length buffer = length_field (unpack header_format (take 8 buffer))

module _ {S : Type 0} (callback : Option (Callback S)) where
  -- Only events reach the callback; the other types are logged.
  unfoldable pub dispatch : S → MessageFrame → S × Bool
  dispatch s frame =
      if eqb_ℤ frame.msg_type (pos msg_type_event)
      then (elim callback [ none ↦ (s, false) | some f ↦ f s frame ])
      else (s, false)

  -- From the parse on: an exception of the parse or of the callback skips one more byte.
  unfoldable pub deliver : S → Bytes → Result MessageFrame → S × Bytes
  deliver s rest (err e) = (s, drop 1 rest)
  deliver s rest (ok frame) =
      let (s', raised) = dispatch s frame in (s', if raised then drop 1 rest else rest)

  -- One round of the loop for the peeked length; `none` leaves the loop.
  unfoldable pub extract : S → Bytes → Option ℤ → Option (S × Bytes)
  extract s buffer none = some (s, drop 1 buffer)
  extract s buffer (some length_) =
      if ltb_ℤ (pos 4096) length_ || ltb_ℤ length_ (pos 0)
      then some (s, drop 1 buffer)
      else if ltb (length buffer) (8 + pos_part length_)
      then none
      else some (
          deliver s (drop (8 + pos_part length_) buffer)
            (from_bytes (take (8 + pos_part length_) buffer)))

  -- `while len(buffer) >= 8`
  unfoldable pub scan : S → Bytes → Option (S × Bytes)
  scan s buffer = if ltb (length buffer) 8 then none else extract s buffer (peek_length buffer)

  unfoldable pub scan_loop : ℕ → S → Bytes → S × Bytes
  scan_loop zero s buffer = (s, buffer)
  scan_loop (suc fuel) s buffer = elim (scan s buffer) [
    | none ↦ (s, buffer)
    | some (s', buffer') ↦ scan_loop fuel s' buffer'
  ]

  -- Each round takes a byte at least, so as many rounds as there are bytes are enough.
  unfoldable pub process : S → Bytes → S × Bytes
  process s buffer = scan_loop (length buffer) s buffer

  -- `buffer += data`, for each non-empty `data` that `recv` returns.
  unfoldable pub receive : S → Bytes → List Bytes → S × Bytes
  receive s buffer [] = (s, buffer)
  receive s buffer (chunk ∷ chunks) =
      let (s', rest) = process s (buffer ++ chunk) in receive s' rest chunks
