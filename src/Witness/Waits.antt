-- ===== src/Witness/Waits.antt =====
-- Tests of the event handler, its waiting loops and the client's acknowledged commands.
use rose_esp.Prelude.{ℕ, ◌≡◌, ◌≢◌, refl, Bool, true, none, some, [], ◌∷◌, ◌++◌, map, if◌then◌else◌}
use rose_esp.Prelude.Int.{ℤ, pos}
use rose_esp.Prelude.Eq.{nat_eq}
use rose_esp.Struct.{unpack, fields, decode, of_le}
use rose_esp.Protocol.Events.{Event}
use rose_esp.Protocol.Events.Reads.{cmd_ack_from_bytes}
use rose_esp.Protocol.Events.Parse.{caught, parse_opcode, parse_payload, parse_event}
use rose_esp.Protocol.Events.Parse.Opcode.{opcode_of, parse_event-opcode}
use rose_esp.Struct.{Bytes}
use rose_esp.Handler.{
  EventHandler, new, cmd_id_of, register_callback, opcode_section, id_section, handle_event,
  try_response, try_event, wait_for_response, wait_for_response_of_type, wait_for_event,
  wait_for_event_matching,
}
use rose_esp.Handler.Queues.{queue}
use rose_esp.Handler.Correlation.{CarriesId, IsOfOpcode, IsCorrelated, IsCorrelated-new}
use rose_esp.Handler.Arrival.{appended, events_of, responses_of, handle_event_lem}
use rose_esp.Handler.Waiting.{
  wait_for_response-CarriesId, wait_for_others-keyed, wait_for_response-arrives,
}
use rose_esp.Handler.Interleaving.{
  Reach, start, next, registers, indexes_event, indexes_response, Reach-keyed,
}
use rose_esp.Protocol.Frame.{MessageFrame}
use rose_esp.Witness.Data.{text_of, ack_frame, ack_event}

ack_parsed : parse_event text_of ack_frame ≡ some ack_event
unfolding parse_event parse_payload parse_opcode caught cmd_ack_from_bytes unpack fields decode
    of_le
ack_parsed = refl

parse_event-opcode_example : (rest : Bytes) × (ack_frame.payload ≡ opcode_of ack_event ∷ rest)
parse_event-opcode_example = parse_event-opcode text_of ack_frame ack_parsed

abbrev empty_handler : EventHandler ℕ
empty_handler = new

wait_for_response-CarriesId_example :
    ((event : Event)
      → (wait_for_response text_of (pos 7) ((ack_frame ∷ []) ∷ [] ∷ []) empty_handler).0
        ≡ some event
      → CarriesId (pos 7) event)
    × IsCorrelated (wait_for_response text_of (pos 7) ((ack_frame ∷ []) ∷ [] ∷ []) empty_handler).1
wait_for_response-CarriesId_example =
    wait_for_response-CarriesId text_of (pos 7) ((ack_frame ∷ []) ∷ [] ∷ []) empty_handler
      IsCorrelated-new

wait_for_response-arrives_example :
    (wait_for_response text_of (pos 7) ([] ++ (([] ++ (ack_frame ∷ [])) ∷ [] ∷ [])) empty_handler).0
    ≢ none
wait_for_response-arrives_example =
    wait_for_response-arrives text_of (pos 7) [] ([] ∷ []) [] [] ack_frame ack_event empty_handler
      ack_parsed refl (λ e. cc)

abbrev any_event : Event → Bool
any_event event = true

wait_for_others-keyed_example :
    ((event : Event)
      → (wait_for_response_of_type text_of
          (pos 7)
          any_event
          ((ack_frame ∷ []) ∷ [] ∷ [])
          empty_handler).0
        ≡ some event
      → CarriesId (pos 7) event)
    × ((event : Event)
        → (wait_for_event text_of 0x20 ((ack_frame ∷ []) ∷ [] ∷ []) empty_handler).0 ≡ some event
        → IsOfOpcode 0x20 event)
    × ((event : Event)
        → (wait_for_event_matching text_of 0x20 any_event
            ((ack_frame ∷ []) ∷ [] ∷ [])
            empty_handler).0
          ≡ some event
        → IsOfOpcode 0x20 event)
wait_for_others-keyed_example =
    wait_for_others-keyed text_of (pos 7) 0x20 any_event ((ack_frame ∷ []) ∷ [] ∷ []) empty_handler
      IsCorrelated-new

abbrev listening : EventHandler ℕ
listening = register_callback 0x20 5 new

handle_event_lem_example :
    let (h', made) = handle_event text_of ack_frame listening in
    ((k : ℕ)
      → events_of h' k ≡ (
          if nat_eq.beq (opcode_of ack_event) k
          then events_of listening k ++ ack_event ∷ []
          else events_of listening k))
    × ((j : ℤ)
        → responses_of h' j ≡ appended (cmd_id_of ack_event) j (responses_of listening j) ack_event)
    × (h'.event_callbacks ≡ listening.event_callbacks)
    × (made ≡ map (λ c. (c, ack_event)) (queue listening.event_callbacks (opcode_of ack_event)))
handle_event_lem_example = handle_event_lem text_of ack_frame listening ack_event ack_parsed

-- After the two sections for an acknowledgement.
abbrev acked : EventHandler ℕ
acked =
    id_section (parse_event text_of ack_frame)
      (opcode_section ack_frame.payload (parse_event text_of ack_frame) listening)

Reach-keyed_example :
    ((frame : MessageFrame) → Reach text_of new (handle_event text_of frame acked).0)
    × ((cmd_id : ℤ) (event : Event) (k' : EventHandler ℕ)
        → try_response cmd_id acked ≡ some (event, k')
        → CarriesId cmd_id event)
    × ((opcode : ℕ) (event : Event) (k' : EventHandler ℕ)
        → try_event opcode acked ≡ some (event, k')
        → IsOfOpcode opcode event)
Reach-keyed_example = Reach-keyed text_of (
    next (next (next start (registers 0x20 5)) (indexes_event ack_frame))
      (indexes_response ack_frame))
