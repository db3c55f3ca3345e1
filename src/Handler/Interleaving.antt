-- ===== src/Handler/Interleaving.antt =====
-- The handler is shared: the receiving thread and the waiting threads each take the lock for one
-- section at a time (bridge/src/events.py, `with self._lock`). Every order of sections is a path
-- of `Reach`, so `handle_event` may be cut between its two sections: the keys are those that it
-- takes from the frame.
use rose_esp.Prelude.{ℕ, ◌≡◌, Bool, Option, none, some, [], ◌∷◌}
use rose_esp.Prelude.Int.{ℤ}
use rose_esp.Protocol.Events.{Event}
use rose_esp.Protocol.Events.Parse.Opcode.{parse_event-opcode}
use rose_esp.Protocol.Frame.{MessageFrame}
use rose_esp.Protocol.Events.Parse.{parse_event}
use rose_esp.Struct.{Bytes}
use Prim.Native.String.{String}
use rose_esp.Handler.{
  EventHandler, new, clear_pending, register_callback, opcode_section, id_section, handle_parsed,
  handle_event, try_response, try_event, try_response_of_type, try_event_matching,
  discard_events_matching,
}
use rose_esp.Handler.Correlation.{
  IsCorrelated, IsCorrelated-new, CarriesId, IsOfOpcode, clear_pending-IsCorrelated,
  register_callback-IsCorrelated, opcode_section-IsCorrelated, id_section-IsCorrelated,
  try_response-IsCorrelated, try_event-IsCorrelated, try_response_of_type-IsCorrelated,
  try_event_matching-IsCorrelated, discard_events_matching-IsCorrelated,
}

module _ {C : Type 0} (decode_utf8 : Bytes → String) where
  -- One section of one thread; the receiving thread's two are for a frame.
  pub data Section (h : EventHandler C) : EventHandler C → Type 0 where
    registers : (opcode : ℕ) (c : C) → Section h (register_callback opcode c h)
    clears : Section h (clear_pending h)
    indexes_event :
        (frame : MessageFrame)
        → Section h (opcode_section frame.payload (parse_event decode_utf8 frame) h)
    indexes_response :
        (frame : MessageFrame) → Section h (id_section (parse_event decode_utf8 frame) h)
    takes_response :
        (cmd_id : ℤ) (event : Event) (h' : EventHandler C)
        → try_response cmd_id h ≡ some (event, h')
        → Section h h'
    takes_event :
        (opcode : ℕ) (event : Event) (h' : EventHandler C)
        → try_event opcode h ≡ some (event, h')
        → Section h h'
    takes_response_of_type :
        (cmd_id : ℤ) (types : Event → Bool) (event : Event) (h' : EventHandler C)
        → try_response_of_type cmd_id types h ≡ some (event, h')
        → Section h h'
    takes_event_matching :
        (opcode : ℕ) (predicate : Event → Bool) (event : Event) (h' : EventHandler C)
        → try_event_matching opcode predicate h ≡ some (event, h')
        → Section h h'
    discards :
        (opcode : ℕ) (predicate : Event → Bool)
        → Section h (discard_events_matching opcode predicate h).0

  pub data Reach (h : EventHandler C) : EventHandler C → Type 0 where
    start : Reach h h
    next : {g k : EventHandler C} → Reach h g → Section g k → Reach h k

  Section-IsCorrelated : {h k : EventHandler C} → Section h k → IsCorrelated h → IsCorrelated k
  Section-IsCorrelated {h} (registers opcode c) v = register_callback-IsCorrelated opcode c h v
  Section-IsCorrelated {h} clears v = clear_pending-IsCorrelated h
  Section-IsCorrelated {h} (indexes_event frame) v =
      opcode_section-IsCorrelated frame.payload (parse_event decode_utf8 frame) h
        (λ event. parse_event-opcode decode_utf8 frame) v
  Section-IsCorrelated {h} (indexes_response frame) v =
      id_section-IsCorrelated (parse_event decode_utf8 frame) h v
  Section-IsCorrelated {h} (takes_response cmd_id event h' e) v =
      (try_response-IsCorrelated cmd_id h v e).1
  Section-IsCorrelated {h} (takes_event opcode event h' e) v =
      (try_event-IsCorrelated opcode h v e).1
  Section-IsCorrelated {h} (takes_response_of_type cmd_id types event h' e) v =
      (try_response_of_type-IsCorrelated cmd_id types h v e).1
  Section-IsCorrelated {h} (takes_event_matching opcode predicate event h' e) v =
      (try_event_matching-IsCorrelated opcode predicate h v e).1
  Section-IsCorrelated {h} (discards opcode predicate) v =
      discard_events_matching-IsCorrelated opcode predicate h v

  Reach-IsCorrelated : {h k : EventHandler C} → IsCorrelated h → Reach h k → IsCorrelated k
  Reach-IsCorrelated v start = v
  Reach-IsCorrelated v (next r s) = Section-IsCorrelated s (Reach-IsCorrelated v r)

  handle_event-Reach :
      (frame : MessageFrame) {h k : EventHandler C}
      → Reach h k
      → Reach h (handle_event decode_utf8 frame k).0
  unfolding handle_event handle_parsed
  handle_event-Reach frame {h} {k} r =
      parsed frame.payload (parse_event decode_utf8 frame)
        (next (next r (indexes_event frame)) (indexes_response frame))
    where
      parsed :
          (payload : Bytes) (o : Option Event)
          → Reach h (id_section o (opcode_section payload o k))
          → Reach h (handle_parsed payload o k).0
      parsed (opcode ∷ rest) (some event) p = p
      parsed [] o p = r
      parsed (opcode ∷ rest) none p = r

  -- Handling a frame is one order of the threads' sections; in every order of them from a new
  -- handler, an event that a section takes for a command id carries that id, and one that a section
  -- takes for an opcode is of its class.
  pub Reach-keyed :
      {k : EventHandler C}
      → Reach new k
      → ((frame : MessageFrame) → Reach new (handle_event decode_utf8 frame k).0)
        × ((cmd_id : ℤ) (event : Event) (k' : EventHandler C)
            → try_response cmd_id k ≡ some (event, k')
            → CarriesId cmd_id event)
        × ((opcode : ℕ) (event : Event) (k' : EventHandler C)
            → try_event opcode k ≡ some (event, k')
            → IsOfOpcode opcode event)
  Reach-keyed {k} r =
      let v = Reach-IsCorrelated IsCorrelated-new r in
      (
        λ frame. handle_event-Reach frame r,
        λ cmd_id event k' e. (try_response-IsCorrelated cmd_id k v e).0,
        λ opcode event k' e. (try_event-IsCorrelated opcode k v e).0,
      )
