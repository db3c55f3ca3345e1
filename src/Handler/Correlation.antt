-- ===== src/Handler/Correlation.antt =====
-- The invariant of `EventHandler`: what waits under a command id carries that id, what waits under
-- an opcode is of that opcode's class, and no key holds an empty list.
use Prim.Native.String.{String}
use rose_esp.Prelude.{ℕ, ◌≡◌, refl, Bool, Option, none, some, List, [], ◌∷◌, arith}
use rose_esp.Prelude.Int.{ℤ}
use rose_esp.Prelude.Eq.{nat_eq, int_eq}
use rose_esp.Prelude.Dict.{Dict}
use rose_esp.Struct.{Bytes}
use rose_esp.Protocol.Frame.{MessageFrame}
use rose_esp.Protocol.Events.{Event}
use rose_esp.Protocol.Events.Parse.{parse_event}
use rose_esp.Protocol.Events.Parse.Opcode.{opcode_of, parse_event-opcode}
use rose_esp.Handler.{
  EventHandler, new, cmd_id_of, register_callback, clear_pending, index_event, index_response,
  opcode_section, id_section, handle_parsed, handle_event, handle_events, try_response, try_event,
  try_response_of_type, try_event_matching, with_responses, with_events, discard_events_matching,
}
use rose_esp.Handler.Queues.{pop_first}
use rose_esp.Handler.Queues.Tidy.{
  IsTidy, IsTidy-empty, IsTidy-push, pop_first-IsTidy, pop_matching-IsTidy, discard_matching-IsTidy,
}

abbrev pub CarriesId : ℤ → Event → Type 0
CarriesId cmd_id event = cmd_id_of event ≡ some cmd_id

abbrev pub IsOfOpcode : ℕ → Event → Type 0
IsOfOpcode opcode event = opcode_of event ≡ opcode

module _ {C : Type 0} where
  pub record IsCorrelated (h : EventHandler C) : Type 0 where
    pub responses : IsTidy CarriesId h.pending_responses
    pub events : IsTidy IsOfOpcode h.pending_events

  pub IsCorrelated-new : IsCorrelated new
  IsCorrelated-new = record { responses = IsTidy-empty CarriesId; events = IsTidy-empty IsOfOpcode }

  pub register_callback-IsCorrelated :
      (event_type : ℕ) (c : C) (h : EventHandler C)
      → IsCorrelated h
      → IsCorrelated (register_callback event_type c h)
  unfolding register_callback
  register_callback-IsCorrelated event_type c h v = record {
    responses = v.responses;
    events = v.events;
  }

  pub clear_pending-IsCorrelated : (h : EventHandler C) → IsCorrelated (clear_pending h)
  unfolding clear_pending
  clear_pending-IsCorrelated h = record {
    responses = IsTidy-empty CarriesId;
    events = IsTidy-empty IsOfOpcode;
  }

  pub index_event-IsCorrelated :
      (opcode : ℕ) (event : Event) (h : EventHandler C)
      → opcode_of event ≡ opcode
      → IsCorrelated h
      → IsCorrelated (index_event opcode event h)
  unfolding index_event
  index_event-IsCorrelated opcode event h e v = record {
    responses = v.responses;
    events = IsTidy-push IsOfOpcode h.pending_events opcode event v.events e;
  }

  index_response-cases :
      (o : Option ℤ) (event : Event) (h : EventHandler C)
      → cmd_id_of event ≡ o
      → IsCorrelated h
      → IsCorrelated (index_response o event h)
  unfolding index_response
  index_response-cases none event h e v = v
  index_response-cases (some cmd_id) event h e v = record {
    responses = IsTidy-push CarriesId h.pending_responses cmd_id event v.responses e;
    events = v.events;
  }

  pub index_response-IsCorrelated :
      (event : Event) (h : EventHandler C)
      → IsCorrelated h
      → IsCorrelated (index_response (cmd_id_of event) event h)
  index_response-IsCorrelated event h = index_response-cases (cmd_id_of event) event h refl

  -- What a waiter takes from a correlated handler belongs to its key, and the invariant stays.
  with_responses-IsCorrelated :
      (h : EventHandler C) (cmd_id : ℤ) (o : Option (Event × Dict ℤ (List Event))) {event : Event}
      {h' : EventHandler C}
      → IsCorrelated h
      → ((x : Event) (d : Dict ℤ (List Event))
          → o ≡ some (x, d)
          → CarriesId cmd_id x × IsTidy CarriesId d)
      → with_responses h o ≡ some (event, h')
      → CarriesId cmd_id event × IsCorrelated h'
  unfolding with_responses
  with_responses-IsCorrelated h cmd_id none v popped e = cc
  with_responses-IsCorrelated h cmd_id (some (x, d)) {event} {h'} v popped e =
      let ex : x ≡ event = ground arith in
      let eh : record h { pending_responses = d } ≡ h' = ground arith in
      let (px, t) = popped x d refl in
      (rw (← ex) px, rw (← eh) (record { responses = t; events = v.events }))

  with_events-IsCorrelated :
      (h : EventHandler C) (opcode : ℕ) (o : Option (Event × Dict ℕ (List Event))) {event : Event}
      {h' : EventHandler C}
      → IsCorrelated h
      → ((x : Event) (d : Dict ℕ (List Event))
          → o ≡ some (x, d)
          → IsOfOpcode opcode x × IsTidy IsOfOpcode d)
      → with_events h o ≡ some (event, h')
      → IsOfOpcode opcode event × IsCorrelated h'
  unfolding with_events
  with_events-IsCorrelated h opcode none v popped e = cc
  with_events-IsCorrelated h opcode (some (x, d)) {event} {h'} v popped e =
      let ex : x ≡ event = ground arith in
      let eh : record h { pending_events = d } ≡ h' = ground arith in
      let (px, t) = popped x d refl in
      (rw (← ex) px, rw (← eh) (record { responses = v.responses; events = t }))

  pub try_response-IsCorrelated :
      (cmd_id : ℤ) (h : EventHandler C) {event : Event} {h' : EventHandler C}
      → IsCorrelated h
      → try_response cmd_id h ≡ some (event, h')
      → CarriesId cmd_id event × IsCorrelated h'
  unfolding try_response
  try_response-IsCorrelated cmd_id h v =
      with_responses-IsCorrelated h cmd_id (pop_first h.pending_responses cmd_id) v
        (λ x d. pop_first-IsTidy CarriesId h.pending_responses cmd_id v.responses)

  pub try_response_of_type-IsCorrelated :
      (cmd_id : ℤ) (types : Event → Bool) (h : EventHandler C) {event : Event} {h' : EventHandler C}
      → IsCorrelated h
      → try_response_of_type cmd_id types h ≡ some (event, h')
      → CarriesId cmd_id event × IsCorrelated h'
  unfolding try_response_of_type
  try_response_of_type-IsCorrelated cmd_id types h v =
      with_responses-IsCorrelated h cmd_id _ v
        (λ x d. pop_matching-IsTidy CarriesId _ h.pending_responses cmd_id v.responses)

  pub try_event-IsCorrelated :
      (opcode : ℕ) (h : EventHandler C) {event : Event} {h' : EventHandler C}
      → IsCorrelated h
      → try_event opcode h ≡ some (event, h')
      → IsOfOpcode opcode event × IsCorrelated h'
  unfolding try_event
  try_event-IsCorrelated opcode h v =
      with_events-IsCorrelated h opcode _ v
        (λ x d. pop_first-IsTidy IsOfOpcode h.pending_events opcode v.events)

  pub try_event_matching-IsCorrelated :
      (opcode : ℕ) (predicate : Event → Bool) (h : EventHandler C) {event : Event}
      {h' : EventHandler C}
      → IsCorrelated h
      → try_event_matching opcode predicate h ≡ some (event, h')
      → IsOfOpcode opcode event × IsCorrelated h'
  unfolding try_event_matching
  try_event_matching-IsCorrelated opcode predicate h v =
      with_events-IsCorrelated h opcode _ v
        (λ x d. pop_matching-IsTidy IsOfOpcode _ h.pending_events opcode v.events)

  pub discard_events_matching-IsCorrelated :
      (opcode : ℕ) (predicate : Event → Bool) (h : EventHandler C)
      → IsCorrelated h
      → IsCorrelated (discard_events_matching opcode predicate h).0
  unfolding discard_events_matching
  discard_events_matching-IsCorrelated opcode predicate h v = record {
    responses = v.responses;
    events = discard_matching-IsTidy IsOfOpcode predicate h.pending_events opcode v.events;
  }

  pub opcode_section-IsCorrelated :
      (payload : Bytes) (o : Option Event) (h : EventHandler C)
      → ((event : Event) → o ≡ some event → (rest : Bytes) × (payload ≡ opcode_of event ∷ rest))
      → IsCorrelated h
      → IsCorrelated (opcode_section payload o h)
  opcode_section-IsCorrelated [] o h p v = v
  opcode_section-IsCorrelated (opcode ∷ rest) none h p v = v
  opcode_section-IsCorrelated (opcode ∷ rest) (some event) h p v =
      let (rest', e) = p event refl in index_event-IsCorrelated opcode event h (ground arith) v

  pub id_section-IsCorrelated :
      (o : Option Event) (h : EventHandler C) → IsCorrelated h → IsCorrelated (id_section o h)
  id_section-IsCorrelated none h v = v
  id_section-IsCorrelated (some event) h v = index_response-IsCorrelated event h v

  module _ (decode_utf8 : Bytes → String) where
    handle_parsed-IsCorrelated :
        (payload : Bytes) (o : Option Event) (h : EventHandler C)
        → ((event : Event) → o ≡ some event → (rest : Bytes) × (payload ≡ opcode_of event ∷ rest))
        → IsCorrelated h
        → IsCorrelated (handle_parsed payload o h).0
    unfolding handle_parsed
    handle_parsed-IsCorrelated [] o h p v = v
    handle_parsed-IsCorrelated (opcode ∷ rest) none h p v = v
    handle_parsed-IsCorrelated (opcode ∷ rest) (some event) h p v =
        id_section-IsCorrelated (some event) (index_event opcode event h)
          (opcode_section-IsCorrelated (opcode ∷ rest) (some event) h p v)

    pub handle_event-IsCorrelated :
        (frame : MessageFrame) (h : EventHandler C)
        → IsCorrelated h
        → IsCorrelated (handle_event decode_utf8 frame h).0
    unfolding handle_event
    handle_event-IsCorrelated frame h v =
        handle_parsed-IsCorrelated frame.payload (parse_event decode_utf8 frame) h
          (λ event. parse_event-opcode decode_utf8 frame) v

    pub handle_events-IsCorrelated :
        (frames : List MessageFrame) (h : EventHandler C)
        → IsCorrelated h
        → IsCorrelated (handle_events decode_utf8 frames h).0
    unfolding handle_events
    handle_events-IsCorrelated [] h v = v
    handle_events-IsCorrelated (frame ∷ frames) h v =
        handle_events-IsCorrelated frames (handle_event decode_utf8 frame h).0
          (handle_event-IsCorrelated frame h v)
