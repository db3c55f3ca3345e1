-- ===== src/Handler.antt =====
-- `EventHandler` of bridge/src/events.py. A callback is a value of an abstract type, and
-- `handle_event` returns the calls that it makes, in order: what a callback does is its owner's.
-- Each `wait_for_…` loop is its locked section (`try_…`) and a loop over the frames that arrive
-- while it sleeps: one list of frames for each poll that the timeout leaves room for.
pub mod Queues
pub mod Correlation
pub mod Arrival
pub mod Ready
pub mod Waiting
pub mod Interleaving
use Prim.Native.String.{String}
use rose_esp.Prelude.{
  ℕ, Bool, true, false, ◌||◌, Option, none, some, List, [], ◌∷◌, ◌++◌, map, if◌then◌else◌,
}
use rose_esp.Prelude.Int.{ℤ}
use rose_esp.Prelude.Eq.{Eq, nat_eq, int_eq}
use rose_esp.Prelude.Dict.{Dict, put}
use rose_esp.Struct.{Bytes}
use rose_esp.Protocol.Frame.{MessageFrame}
use rose_esp.Protocol.Events.{
  Event, cmd_ack, gpio_value, adc_value, gpio_signal_captured, sync_response, ble_pairing_enabled,
  ble_in_range_list, error,
}
use rose_esp.Protocol.Events.Parse.{parse_event}
use Queues.{queue, push, pop_first, pop_matching, discard_matching}

pub record EventHandler (C : Type 0) : Type 0 where
  pub event_callbacks : Dict ℕ (List C)
  pub pending_responses : Dict ℤ (List Event)
  pub pending_events : Dict ℕ (List Event)

-- `event.cmd_id`, for the classes that have the attribute.
abbrev pub cmd_id_of : Event → Option ℤ
cmd_id_of (cmd_ack e) = some e.cmd_id
cmd_id_of (gpio_value e) = some e.cmd_id
cmd_id_of (adc_value e) = some e.cmd_id
cmd_id_of (gpio_signal_captured e) = some e.cmd_id
cmd_id_of (sync_response e) = some e.cmd_id
cmd_id_of (ble_pairing_enabled e) = some e.cmd_id
cmd_id_of (ble_in_range_list e) = some e.cmd_id
cmd_id_of (error e) = some e.cmd_id
cmd_id_of _ = none

abbrev pub is_error : Event → Bool
is_error (error e) = true
is_error _ = false

module _ {C : Type 0} where
  abbrev pub new : EventHandler C
  new = record { event_callbacks = []; pending_responses = []; pending_events = [] }

  unfoldable pub register_callback : ℕ → C → EventHandler C → EventHandler C
  register_callback event_type callback h = record h {
    event_callbacks = push h.event_callbacks event_type callback;
  }

  unfoldable pub clear_pending : EventHandler C → EventHandler C
  clear_pending h = record h { pending_responses = []; pending_events = [] }

  -- What the two locked sections of `handle_event` do.
  unfoldable pub index_event : ℕ → Event → EventHandler C → EventHandler C
  index_event opcode event h = record h { pending_events = push h.pending_events opcode event }

  unfoldable pub index_response : Option ℤ → Event → EventHandler C → EventHandler C
  index_response none event h = h
  index_response (some cmd_id) event h = record h {
    pending_responses = push h.pending_responses cmd_id event;
  }

  -- The sections of `handle_event`, for a frame's payload and what it is parsed to: the event is
  -- indexed under the first byte, and then under its command id.
  abbrev pub opcode_section : Bytes → Option Event → EventHandler C → EventHandler C
  opcode_section (opcode ∷ rest) (some event) h = index_event opcode event h
  opcode_section _ _ h = h

  abbrev pub id_section : Option Event → EventHandler C → EventHandler C
  id_section (some event) h = index_response (cmd_id_of event) event h
  id_section none h = h

  -- `self.event_callbacks.get(opcode, [])`, each called with the event; a callback that raises is
  -- logged and the next one is called.
  unfoldable pub calls : ℕ → Event → EventHandler C → List (C × Event)
  calls opcode event h = map (λ callback. (callback, event)) (queue h.event_callbacks opcode)

  -- `if event:` is whether there is one, since no event class defines its truth value.
  unfoldable pub handle_parsed :
      Bytes → Option Event → EventHandler C → EventHandler C × List (C × Event)
  handle_parsed (opcode ∷ rest) (some event) h =
      let h' = id_section (some event) (opcode_section (opcode ∷ rest) (some event) h) in
      (h', calls opcode event h')
  handle_parsed _ _ h = (h, [])

  module _ (decode_utf8 : Bytes → String) where
    unfoldable pub handle_event : MessageFrame → EventHandler C → EventHandler C × List (C × Event)
    handle_event frame h = handle_parsed frame.payload (parse_event decode_utf8 frame) h

    -- The frames that arrive one after the other.
    unfoldable pub handle_events :
        List MessageFrame → EventHandler C → EventHandler C × List (C × Event)
    handle_events [] h = (h, [])
    handle_events (frame ∷ frames) h =
        let (h', made) = handle_event frame h in
        let (h'', later) = handle_events frames h' in (h'', made ++ later)

  -- The handler after a `pop` in one of its dicts.
  unfoldable pub with_responses :
      EventHandler C → Option (Event × Dict ℤ (List Event)) → Option (Event × EventHandler C)
  with_responses h none = none
  with_responses h (some (event, rest)) = some (event, record h { pending_responses = rest })

  unfoldable pub with_events :
      EventHandler C → Option (Event × Dict ℕ (List Event)) → Option (Event × EventHandler C)
  with_events h none = none
  with_events h (some (event, rest)) = some (event, record h { pending_events = rest })

  -- The locked section of `wait_for_response`.
  unfoldable pub try_response : ℤ → EventHandler C → Option (Event × EventHandler C)
  try_response cmd_id h = with_responses h (pop_first h.pending_responses cmd_id)

  -- The locked section of `wait_for_event`.
  unfoldable pub try_event : ℕ → EventHandler C → Option (Event × EventHandler C)
  try_event event_type h = with_events h (pop_first h.pending_events event_type)

  -- The locked section of `wait_for_response_of_type`; `types` is `isinstance(resp, types)`.
  unfoldable pub try_response_of_type :
      ℤ → (Event → Bool) → EventHandler C → Option (Event × EventHandler C)
  try_response_of_type cmd_id types h =
      with_responses h
        (pop_matching (λ event. types event || is_error event) h.pending_responses cmd_id)

  -- The locked section of `wait_for_event_matching`.
  unfoldable pub try_event_matching :
      ℕ → (Event → Bool) → EventHandler C → Option (Event × EventHandler C)
  try_event_matching event_type predicate h =
      with_events h (pop_matching predicate h.pending_events event_type)

  -- The locked section of `wait_for_capture_or_error`, which reads neither of the first and the
  -- third argument.
  unfoldable pub try_capture_or_error :
      ℕ → ℤ → (Event → Bool) → EventHandler C → Option (Event × EventHandler C)
  try_capture_or_error event_type cmd_id predicate h = try_response cmd_id h

  unfoldable pub discard_events_matching : ℕ → (Event → Bool) → EventHandler C → EventHandler C × ℕ
  discard_events_matching event_type predicate h =
      let (kept, removed) = discard_matching predicate h.pending_events event_type in
      (record h { pending_events = kept }, removed)

  module _ (decode_utf8 : Bytes → String) where
    -- `while time.time() - start_time < timeout`, with the lists of frames that arrive during the
    -- sleeps: what is returned, the handler, and the callbacks' calls. `None` on timeout.
    unfoldable pub wait :
        (EventHandler C → Option (Event × EventHandler C))
        → List (List MessageFrame)
        → EventHandler C
        → Option Event × EventHandler C × List (C × Event)
    wait poll [] h = (none, h, [])
    wait poll (batch ∷ batches) h = elim (poll h) [
      | some (event, h') ↦ (some event, h', [])
      | none ↦
          let (h', made) = handle_events decode_utf8 batch h in
          let (found, h'', later) = wait poll batches h' in (found, h'', made ++ later)
    ]

    unfoldable pub wait_for_response :
        ℤ
        → List (List MessageFrame)
        → EventHandler C
        → Option Event × EventHandler C × List (C × Event)
    wait_for_response cmd_id = wait (try_response cmd_id)

    unfoldable pub wait_for_event :
        ℕ
        → List (List MessageFrame)
        → EventHandler C
        → Option Event × EventHandler C × List (C × Event)
    wait_for_event event_type = wait (try_event event_type)

    unfoldable pub wait_for_response_of_type :
        ℤ
        → (Event → Bool)
        → List (List MessageFrame)
        → EventHandler C
        → Option Event × EventHandler C × List (C × Event)
    wait_for_response_of_type cmd_id types = wait (try_response_of_type cmd_id types)

    unfoldable pub wait_for_event_matching :
        ℕ
        → (Event → Bool)
        → List (List MessageFrame)
        → EventHandler C
        → Option Event × EventHandler C × List (C × Event)
    wait_for_event_matching event_type predicate = wait (try_event_matching event_type predicate)

    unfoldable pub wait_for_capture_or_error :
        ℕ
        → ℤ
        → (Event → Bool)
        → List (List MessageFrame)
        → EventHandler C
        → Option Event × EventHandler C × List (C × Event)
    wait_for_capture_or_error event_type cmd_id predicate =
        wait (try_capture_or_error event_type cmd_id predicate)
