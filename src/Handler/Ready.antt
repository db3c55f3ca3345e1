-- ===== src/Handler/Ready.antt =====
-- Once a response has arrived, a poll for its command id has something to take.
use Prim.Native.String.{String}
use rose_esp.Prelude.{
  ◌≡◌, ◌≢◌, refl, Option, none, some, List, [], ◌∷◌, ◌++◌, arith, Option-cases, inl, inr,
}
use rose_esp.Prelude.Int.{ℤ, eqb_ℤ_iff}
use rose_esp.Prelude.Eq.{nat_eq, int_eq}
use rose_esp.Struct.{Bytes}
use rose_esp.Protocol.Frame.{MessageFrame}
use rose_esp.Protocol.Events.{Event}
use rose_esp.Protocol.Events.Parse.{parse_event}
use rose_esp.Handler.{
  EventHandler, cmd_id_of, handle_event, handle_events, try_response, with_responses,
}
use rose_esp.Handler.Queues.Laws.{pop_first-none}
use rose_esp.Handler.Arrival.{appended, responses_of, handle_event_lem, handle_event_unparsed}

appended-ne-nil :
    (o : Option ℤ) (j : ℤ) (es : List Event) (event : Event) → es ≢ [] → appended o j es event ≢ []
appended-ne-nil none j es event h = h
appended-ne-nil (some k) j [] event h = absurd (h refl)
appended-ne-nil (some k) j (x ∷ xs) event h = ground arith

appended_self : (k : ℤ) (es : List Event) (event : Event) → appended (some k) k es event ≢ []
appended_self k [] event = ground (arith, eqb_ℤ_iff k k)
appended_self k (x ∷ xs) event = ground arith

module _ {C : Type 0} where
  try_response-none :
      (cmd_id : ℤ) (h : EventHandler C) → try_response cmd_id h ≡ none → responses_of h cmd_id ≡ []
  unfolding try_response with_responses
  try_response-none cmd_id h e = pop_first-none h.pending_responses cmd_id (ground arith)

  module _ (decode_utf8 : Bytes → String) where
    -- Something waits under the command id.
    abbrev pub Ready : ℤ → EventHandler C → Type 0
    Ready cmd_id h = responses_of h cmd_id ≢ []

    handle_event-keeps :
        (cmd_id : ℤ) (frame : MessageFrame) (h : EventHandler C)
        → Ready cmd_id h
        → Ready cmd_id (handle_event decode_utf8 frame h).0
    handle_event-keeps cmd_id frame h r = elim (Option-cases (parse_event decode_utf8 frame)) [
      | inl n ↦ rw (handle_event_unparsed decode_utf8 frame h n) r
      | inr (event, p) ↦
          rw ((handle_event_lem decode_utf8 frame h event p).1 cmd_id)
            (appended-ne-nil (cmd_id_of event) cmd_id (responses_of h cmd_id) event r)
    ]

    handle_events-keeps :
        (cmd_id : ℤ) (frames : List MessageFrame) (h : EventHandler C)
        → Ready cmd_id h
        → Ready cmd_id (handle_events decode_utf8 frames h).0
    unfolding handle_events
    handle_events-keeps cmd_id [] h r = r
    handle_events-keeps cmd_id (frame ∷ frames) h r =
        handle_events-keeps cmd_id frames (handle_event decode_utf8 frame h).0
          (handle_event-keeps cmd_id frame h r)

    handle_event-Ready :
        (cmd_id : ℤ) (frame : MessageFrame) (event : Event) (h : EventHandler C)
        → parse_event decode_utf8 frame ≡ some event
        → cmd_id_of event ≡ some cmd_id
        → Ready cmd_id (handle_event decode_utf8 frame h).0
    handle_event-Ready cmd_id frame event h p c =
        rw ((handle_event_lem decode_utf8 frame h event p).1 cmd_id, c)
          (appended_self cmd_id (responses_of h cmd_id) event)

    arrived :
        (cmd_id : ℤ) (xs ys : List MessageFrame) (frame : MessageFrame) (event : Event)
        (h : EventHandler C)
        → parse_event decode_utf8 frame ≡ some event
        → cmd_id_of event ≡ some cmd_id
        → Ready cmd_id (handle_events decode_utf8 (xs ++ (frame ∷ ys)) h).0
    unfolding handle_events
    arrived cmd_id [] ys frame event h p c =
        handle_events-keeps cmd_id ys (handle_event decode_utf8 frame h).0
          (handle_event-Ready cmd_id frame event h p c)
    arrived cmd_id (x ∷ xs) ys frame event h p c =
        arrived cmd_id xs ys frame event (handle_event decode_utf8 x h).0 p c

    -- Among frames of which one carries the command id, a poll for it has something to take.
    pub handle_events-Ready :
        (cmd_id : ℤ) (xs ys : List MessageFrame) (frame : MessageFrame) (event : Event)
        (h : EventHandler C)
        → parse_event decode_utf8 frame ≡ some event
        → cmd_id_of event ≡ some cmd_id
        → try_response cmd_id (handle_events decode_utf8 (xs ++ (frame ∷ ys)) h).0 ≢ none
    handle_events-Ready cmd_id xs ys frame event h p c n =
        arrived cmd_id xs ys frame event h p c (try_response-none cmd_id _ n)
