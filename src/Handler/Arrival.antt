-- ===== src/Handler/Arrival.antt =====
-- What `handle_event` does to the queues and which callbacks it calls.
use Prim.Native.String.{String}
use rose_esp.Prelude.{
  ℕ, ◌≡◌, refl, Option, none, some, List, [], ◌∷◌, ◌++◌, map, arith, if◌then◌else◌,
}
use rose_esp.Prelude.Int.{ℤ, eqb_ℤ, eqb_ℤ_iff}
use rose_esp.Prelude.Eq.{nat_eq, int_eq}
use rose_esp.Struct.{Bytes}
use rose_esp.Protocol.Frame.{MessageFrame}
use rose_esp.Protocol.Events.{Event}
use rose_esp.Protocol.Events.Parse.{parse_event}
use rose_esp.Protocol.Events.Parse.Opcode.{opcode_of, parse_event-opcode}
use rose_esp.Handler.{
  EventHandler, cmd_id_of, index_event, index_response, calls, handle_parsed, handle_event,
}
use rose_esp.Handler.Queues.{queue}
use rose_esp.Handler.Queues.Laws.{queue-push}

-- The lists under the key of `o`, if it is one, get the event at the end.
abbrev pub appended : Option ℤ → ℤ → List Event → Event → List Event
appended none j es event = es
appended (some k) j es event = if eqb_ℤ k j then es ++ event ∷ [] else es

module _ {C : Type 0} where
  abbrev pub responses_of : EventHandler C → ℤ → List Event
  responses_of h = queue h.pending_responses

  abbrev pub events_of : EventHandler C → ℕ → List Event
  events_of h = queue h.pending_events

  responses-index_response :
      (o : Option ℤ) (event : Event) (h : EventHandler C) (j : ℤ)
      → responses_of (index_response o event h) j ≡ appended o j (responses_of h j) event
  unfolding index_response
  responses-index_response none event h j = refl
  responses-index_response (some k) event h j =
      ground (arith, queue-push h.pending_responses k j event, eqb_ℤ_iff k j)

  -- The other fields, which `index_response` leaves alone.
  rest-index_response :
      (o : Option ℤ) (event : Event) (h : EventHandler C)
      → ((index_response o event h).pending_events ≡ h.pending_events)
        × ((index_response o event h).event_callbacks ≡ h.event_callbacks)
  unfolding index_response
  rest-index_response none event h = (refl, refl)
  rest-index_response (some k) event h = (refl, refl)

  -- The handler after both locked sections.
  abbrev indexed : Event → EventHandler C → EventHandler C
  indexed event h = index_response (cmd_id_of event) event (index_event (opcode_of event) event h)

  handle_parsed-indexed :
      (payload rest : Bytes) (o : Option Event) (event : Event) (h : EventHandler C)
      → payload ≡ opcode_of event ∷ rest
      → o ≡ some event
      → handle_parsed payload o h
        ≡ (indexed event h, calls (opcode_of event) event (indexed event h))
  unfolding handle_parsed
  handle_parsed-indexed payload rest o event h e p = rw (e, p)

  events-indexed :
      (event : Event) (h : EventHandler C) (k : ℕ)
      → events_of (indexed event h) k
        ≡ (if nat_eq.beq (opcode_of event) k then events_of h k ++ event ∷ [] else events_of h k)
  unfolding index_event
  events-indexed event h k =
      let (e, _) =
        rest-index_response (cmd_id_of event) event (index_event (opcode_of event) event h) in
      rw e (ground (arith, queue-push h.pending_events (opcode_of event) k event))

  calls-indexed :
      (event : Event) (h : EventHandler C)
      → calls (opcode_of event) event (indexed event h)
        ≡ map (λ c. (c, event)) (queue h.event_callbacks (opcode_of event))
  unfolding calls index_event
  calls-indexed event h =
      let (_, e) =
        rest-index_response (cmd_id_of event) event (index_event (opcode_of event) event h) in
      rw e

  no_event : (payload : Bytes) (h : EventHandler C) → handle_parsed payload none h ≡ (h, [])
  unfolding handle_parsed
  no_event [] h = refl
  no_event (opcode ∷ rest) h = refl

  module _ (decode_utf8 : Bytes → String) where
    handle_event-indexed :
        (frame : MessageFrame) (h : EventHandler C) (event : Event)
        → parse_event decode_utf8 frame ≡ some event
        → handle_event decode_utf8 frame h
          ≡ (indexed event h, calls (opcode_of event) event (indexed event h))
    unfolding handle_event
    handle_event-indexed frame h event p =
        let (rest, e) = parse_event-opcode decode_utf8 frame p in
        handle_parsed-indexed frame.payload rest (parse_event decode_utf8 frame) event h e p

    -- A frame that parses to an event: the event is appended under its class's opcode and, if it
    -- carries a command id, under that id. Every other list stays, and so do the callbacks. The
    -- callbacks of the opcode are called with it, each once, in the order of registration.
    pub handle_event_lem :
        (frame : MessageFrame) (h : EventHandler C) (event : Event)
        → parse_event decode_utf8 frame ≡ some event
        → let (h', made) = handle_event decode_utf8 frame h in
          ((k : ℕ)
            → events_of h' k ≡ (
                if nat_eq.beq (opcode_of event) k
                then events_of h k ++ event ∷ []
                else events_of h k))
          × ((j : ℤ) → responses_of h' j ≡ appended (cmd_id_of event) j (responses_of h j) event)
          × (h'.event_callbacks ≡ h.event_callbacks)
          × (made ≡ map (λ c. (c, event)) (queue h.event_callbacks (opcode_of event)))
    unfolding index_event
    handle_event_lem frame h event p = rw (handle_event-indexed frame h event p) (
      events-indexed event h,
      responses-index_response (cmd_id_of event) event (index_event (opcode_of event) event h),
      (rest-index_response (cmd_id_of event) event (index_event (opcode_of event) event h)).1,
      calls-indexed event h,
    )

    -- A frame that does not parse changes nothing and calls nobody.
    pub handle_event_unparsed :
        (frame : MessageFrame) (h : EventHandler C)
        → parse_event decode_utf8 frame ≡ none
        → handle_event decode_utf8 frame h ≡ (h, [])
    unfolding handle_event
    handle_event_unparsed frame h p = unparsed frame.payload (parse_event decode_utf8 frame) p
      where
        unparsed :
            (payload : Bytes) (o : Option Event) → o ≡ none → handle_parsed payload o h ≡ (h, [])
        unparsed payload o e = rw e (no_event payload h)
