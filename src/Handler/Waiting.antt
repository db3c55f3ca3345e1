-- ===== src/Handler/Waiting.antt =====
-- The waiting loops: what they return, and that what has arrived is found.
use Prim.Native.String.{String}
use rose_esp.Prelude.{
  ℕ, ◌≡◌, ◌≢◌, refl, Bool, Option, none, some, List, [], ◌∷◌, ◌++◌, Option-cases, inl, inr,
}
use mathlib.Core.Path.{subst}
use mathlib.Core.Option.{some-injective}
use rose_esp.Prelude.Int.{ℤ}
use rose_esp.Prelude.Eq.{nat_eq, int_eq}
use rose_esp.Struct.{Bytes}
use rose_esp.Protocol.Frame.{MessageFrame}
use rose_esp.Protocol.Events.{Event}
use rose_esp.Protocol.Events.Parse.{parse_event}
use rose_esp.Handler.{
  EventHandler, handle_events, wait, wait_for_response, wait_for_event, wait_for_response_of_type,
  wait_for_event_matching, try_response, try_event, try_response_of_type, try_event_matching,
}
use rose_esp.Handler.Correlation.{
  IsCorrelated, CarriesId, IsOfOpcode, handle_events-IsCorrelated, try_response-IsCorrelated,
  try_event-IsCorrelated, try_response_of_type-IsCorrelated, try_event_matching-IsCorrelated,
}
use rose_esp.Handler.Ready.{handle_events-Ready}

module _ {C : Type 0} (decode_utf8 : Bytes → String) where
  module _ (poll : EventHandler C → Option (Event × EventHandler C)) where
    wait_found :
        (batch : List MessageFrame) (batches : List (List MessageFrame)) (h : EventHandler C)
        {event : Event} {h' : EventHandler C}
        → poll h ≡ some (event, h')
        → wait decode_utf8 poll (batch ∷ batches) h ≡ (some event, h', [])
    unfolding wait
    wait_found batch batches h e = rw (e, wait)

    wait_next :
        (batch : List MessageFrame) (batches : List (List MessageFrame)) (h : EventHandler C)
        → poll h ≡ none
        → let (h', made) = handle_events decode_utf8 batch h in
          let (found, h'', later) = wait decode_utf8 poll batches h' in
          wait decode_utf8 poll (batch ∷ batches) h ≡ (found, h'', made ++ later)
    unfolding wait
    wait_next batch batches h e = rw (e, wait)

    -- What holds of everything that a locked section takes holds of what the loop returns.
    wait-Returns :
        (P : Event → Type 0)
        → ((h : EventHandler C) (event : Event) (h' : EventHandler C)
            → IsCorrelated h
            → poll h ≡ some (event, h')
            → P event × IsCorrelated h')
        → (batches : List (List MessageFrame)) (h : EventHandler C) → IsCorrelated h
        → ((event : Event) → (wait decode_utf8 poll batches h).0 ≡ some event → P event)
          × IsCorrelated (wait decode_utf8 poll batches h).1
    wait-Returns P takes [] h v = unfold wait in ((λ event e. cc), v)
    wait-Returns P takes (batch ∷ batches) h v = elim (Option-cases (poll h)) [
      | inl n ↦ rw (wait_next batch batches h n) (
          wait-Returns P takes batches (handle_events decode_utf8 batch h).0
            (handle_events-IsCorrelated decode_utf8 batch h v))
      | inr ((x, h'), s) ↦
          let (px, v') = takes h x h' v s in
          rw (wait_found batch batches h s) ((λ event e. subst P (some-injective x event e) px), v')
    ]

    -- Once the section has something to take, the next poll takes it.
    wait_ready :
        (batches : List (List MessageFrame)) (h : EventHandler C)
        → batches ≢ []
        → poll h ≢ none
        → (wait decode_utf8 poll batches h).0 ≢ none
    wait_ready [] h b r = absurd (b refl)
    wait_ready (batch ∷ batches) h b r = elim (Option-cases (poll h)) [
      | inl n ↦ absurd (r n)
      | inr ((x, h'), s) ↦ rw (wait_found batch batches h s) (λ e. cc)
    ]

    -- If what arrives in one batch gives the section something to take, the loop returns it or
    -- something that was there before, unless the timeout comes first.
    wait_arrives :
        (before after : List (List MessageFrame)) (batch : List MessageFrame) (h : EventHandler C)
        → ((h : EventHandler C) → poll (handle_events decode_utf8 batch h).0 ≢ none)
        → after ≢ []
        → (wait decode_utf8 poll (before ++ (batch ∷ after)) h).0 ≢ none
    wait_arrives [] after batch h r a = elim (Option-cases (poll h)) [
      | inl n ↦
          rw (wait_next batch after h n)
            (wait_ready after (handle_events decode_utf8 batch h).0 a (r h))
      | inr ((x, h'), s) ↦ rw (wait_found batch after h s) (λ e. cc)
    ]
    wait_arrives (b ∷ bs) after batch h r a = elim (Option-cases (poll h)) [
      | inl n ↦
          rw (wait_next b (bs ++ (batch ∷ after)) h n)
            (wait_arrives bs after batch (handle_events decode_utf8 b h).0 r a)
      | inr ((x, h'), s) ↦ rw (wait_found b (bs ++ (batch ∷ after)) h s) (λ e. cc)
    ]

  -- From a correlated handler, whatever frames arrive during the wait, the response that
  -- `wait_for_response` returns carries the command id that it was asked for, and the handler is
  -- correlated again.
  pub wait_for_response-CarriesId :
      (cmd_id : ℤ) (batches : List (List MessageFrame)) (h : EventHandler C)
      → IsCorrelated h
      → ((event : Event)
          → (wait_for_response decode_utf8 cmd_id batches h).0 ≡ some event
          → CarriesId cmd_id event)
        × IsCorrelated (wait_for_response decode_utf8 cmd_id batches h).1
  unfolding wait_for_response
  wait_for_response-CarriesId cmd_id =
      wait-Returns (try_response cmd_id) (CarriesId cmd_id)
        (λ h event h'. try_response-IsCorrelated cmd_id h)

  -- From a correlated handler, what `wait_for_response_of_type` returns carries the command id, and
  -- what `wait_for_event` and `wait_for_event_matching` return is of the opcode's class.
  pub wait_for_others-keyed :
      (cmd_id : ℤ) (opcode : ℕ) (types : Event → Bool) (batches : List (List MessageFrame))
      (h : EventHandler C)
      → IsCorrelated h
      → ((event : Event)
          → (wait_for_response_of_type decode_utf8 cmd_id types batches h).0 ≡ some event
          → CarriesId cmd_id event)
        × ((event : Event)
            → (wait_for_event decode_utf8 opcode batches h).0 ≡ some event
            → IsOfOpcode opcode event)
        × ((event : Event)
            → (wait_for_event_matching decode_utf8 opcode types batches h).0 ≡ some event
            → IsOfOpcode opcode event)
  unfolding wait_for_response_of_type wait_for_event wait_for_event_matching
  wait_for_others-keyed cmd_id opcode types batches h v = (
    (wait-Returns (try_response_of_type cmd_id types) (CarriesId cmd_id)
        (λ h event h'. try_response_of_type-IsCorrelated cmd_id types h) batches h v).0,
    (wait-Returns (try_event opcode) (IsOfOpcode opcode)
        (λ h event h'. try_event-IsCorrelated opcode h) batches h v).0,
    (wait-Returns (try_event_matching opcode types) (IsOfOpcode opcode)
        (λ h event h'. try_event_matching-IsCorrelated opcode types h) batches h v).0,
  )

  -- If, during a poll before the last, a frame arrives whose event carries the command id, then
  -- `wait_for_response` does not time out, whatever else arrives before, with and after it.
  pub wait_for_response-arrives :
      (cmd_id : ℤ) (before after : List (List MessageFrame)) (xs ys : List MessageFrame)
      (frame : MessageFrame) (event : Event) (h : EventHandler C)
      → parse_event decode_utf8 frame ≡ some event
      → CarriesId cmd_id event
      → after ≢ []
      → (wait_for_response decode_utf8 cmd_id (before ++ ((xs ++ (frame ∷ ys)) ∷ after)) h).0 ≢ none
  unfolding wait_for_response
  wait_for_response-arrives cmd_id before after xs ys frame event h p c a =
      wait_arrives (try_response cmd_id) before after (xs ++ (frame ∷ ys)) h
        (λ g. handle_events-Ready decode_utf8 cmd_id xs ys frame event g p c) a
