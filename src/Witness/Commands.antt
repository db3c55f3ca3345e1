-- ===== src/Witness/Commands.antt =====
-- Tests of the client's commands.
use rose_esp.Prelude.{ℕ, ◌≡◌, refl, arith, Bool, true, false, none, some, List, [], ◌∷◌}
use rose_esp.Prelude.Int.{ℤ, pos}
use rose_esp.Prelude.Dict.{get, put, remove}
use rose_esp.Prelude.Eq.{nat_eq, int_eq}
use rose_esp.Prelude.Result.{Result, ok}
use rose_esp.Struct.{pack, encode, unsigned, le_bytes, unpack, fields, decode, of_le, to_signed}
use rose_esp.Protocol.Crc.{crc_loop, crc_bits, crc_bit}
use rose_esp.Protocol.Frame.{MessageFrame, calculate_crc, to_bytes}
use rose_esp.Protocol.Events.{Event, EventCmdAck, cmd_ack, uart_rx}
use rose_esp.Protocol.Commands.{gpio_config_to_bytes}
use rose_esp.Handler.{
  new, wait, wait_for_response, try_response, with_responses, handle_event, handle_events,
  handle_parsed, index_event, index_response, calls,
}
use rose_esp.Protocol.Events.Parse.{parse_event, parse_payload, parse_opcode, caught}
use rose_esp.Protocol.Events.Reads.{cmd_ack_from_bytes}
use rose_esp.Handler.Queues.{queue, push, store, pop_first}
use rose_esp.Handler.Correlation.{IsCorrelated-new}
use rose_esp.Dispatcher.{command_frame, send_frame, send_command, send_encoded, get_next_cmd_id}
use rose_esp.Dispatcher.Commands
use rose_esp.Client.Session.{
  Callback, handle_uart_rx, Client, ack_status, acked, add_listener, run_calls, send, await,
  await_ack, check_ack, finish,
}
use rose_esp.Client.Session.Acked.{acked_lem}
use rose_esp.Client.Session.Listeners.{data_for, IsNumbered, run_calls-add_listener}
use rose_esp.Client.Operations.{unless, configure_gpio}
use rose_esp.Client.Operations.Laws.{configure_gpio_lem}
use rose_esp.Server.Connection
use rose_esp.Witness.Data.{text_of, ack_frame, connected}

abbrev client : Client ℕ
client = record {
  commands = connected;
  events = new;
  uart_listeners = [];
  queues = [];
  listener_count = 0;
  last_error = none;
}

acked_lem_example :
    ((cmd_id : ℤ)
      → (Commands.ping connected).0 ≡ ok (some cmd_id)
      → let found =
          (wait_for_response text_of cmd_id ((ack_frame ∷ []) ∷ [] ∷ []) client.events).0 in
        ((acked text_of Commands.ping ((ack_frame ∷ []) ∷ [] ∷ []) client).0
          ≡ ok (ack_status found).0)
        × ((acked text_of Commands.ping ((ack_frame ∷ []) ∷ [] ∷ []) client).1.last_error
            ≡ (ack_status found).1)
        × ((ack_status found).0 ≡ true
            → (ack : EventCmdAck) × (found ≡ some (cmd_ack ack))
              × (ack.status ≡ pos 0)
              × (ack.cmd_id ≡ cmd_id)))
    × ((Commands.ping connected).0 ≡ ok none
        → ((acked text_of Commands.ping ((ack_frame ∷ []) ∷ [] ∷ []) client).0 ≡ ok false)
          × ((acked text_of Commands.ping ((ack_frame ∷ []) ∷ [] ∷ []) client).1.last_error ≡ none))
acked_lem_example =
    acked_lem text_of Commands.ping ((ack_frame ∷ []) ∷ [] ∷ []) client IsCorrelated-new

nothing-IsNumbered : IsNumbered client
unfolding get
nothing-IsNumbered uart_id l h = absurd (ground arith)

abbrev arrivals : List (Callback ℕ × Event)
arrivals =
    (
      handle_uart_rx,
      uart_rx
          (record { uart_id = pos 1; length = pos 1; timestamp_us = pos 0; received = 65 ∷ [] }),
    )
    ∷ (
      handle_uart_rx,
      uart_rx
          (record { uart_id = pos 0; length = pos 1; timestamp_us = pos 0; received = 66 ∷ [] }),
    )
    ∷ []

run_calls-add_listener_example :
    ((add_listener (pos 1) client).0 ≡ ok 0)
    × IsNumbered (add_listener (pos 1) client).1
    × (queue (run_calls arrivals (add_listener (pos 1) client).1).queues 0
        ≡ data_for (pos 1) arrivals)
run_calls-add_listener_example = run_calls-add_listener (pos 1) arrivals client nothing-IsNumbered

-- The acknowledgement of command 65534.
abbrev config_ack : MessageFrame
config_ack = record ack_frame { payload = 0x20 ∷ 0xFE ∷ 0xFF ∷ 0 ∷ 0 ∷ 9 ∷ 0 ∷ 0 ∷ 0 ∷ [] }

abbrev configured : Result Bool × Client ℕ
configured =
    configure_gpio text_of (pos 5) (pos 1) (pos 0) (pos 0) ((config_ack ∷ []) ∷ [] ∷ []) [] []
      client

configured_true : configured.0 ≡ ok true
unfolding configure_gpio finish await_ack check_ack ack_status unless send await run_calls
    wait_for_response wait try_response with_responses pop_first queue get handle_events
    handle_event handle_parsed index_event index_response calls push put remove store parse_event
    parse_payload parse_opcode caught cmd_ack_from_bytes unpack fields decode of_le to_signed
    Commands.gpio_config send_encoded gpio_config_to_bytes pack encode unsigned le_bytes
    send_command get_next_cmd_id command_frame calculate_crc crc_loop crc_bits crc_bit send_frame
    Connection.send_command Connection.transmit to_bytes
configured_true = refl

configure_gpio_lem_example : configured.1.last_error ≡ none
configure_gpio_lem_example =
    configure_gpio_lem text_of (pos 5) (pos 1) (pos 0) (pos 0) ((config_ack ∷ []) ∷ [] ∷ []) [] []
      client configured_true
