-- ===== src/Witness/Web.antt =====
-- Tests of the platform's web service.
use rose_esp.Prelude.{ℕ, ◌≡◌, refl, true, false, some, none, List, [], ◌∷◌}
use rose_esp.Prelude.Int.{ℤ, pos}
use rose_esp.Prelude.Dict.{get}
use rose_esp.Prelude.Eq.{nat_eq, int_eq}
use rose_esp.Prelude.Result.{ok, err, type_error}
use rose_esp.Struct.{pack, encode, unsigned, le_bytes}
use rose_esp.Protocol.Crc.{crc_loop, crc_bits, crc_bit}
use rose_esp.Protocol.Frame.{calculate_crc, to_bytes}
use rose_esp.Protocol.Commands.{port_bind_to_bytes, port_unbind_to_bytes}
use rose_esp.Handler.{new, wait, wait_for_response, try_response, with_responses}
use rose_esp.Handler.Queues.{queue, pop_first}
use rose_esp.Dispatcher.{command_frame, send_frame, send_command, send_encoded, get_next_cmd_id}
use rose_esp.Dispatcher.Commands
use rose_esp.Server.Connection
use rose_esp.Client.Session.{send, await, run_calls}
use rose_esp.Platform.Values.{Record, number, string}
use rose_esp.Platform.Cache.{Platform, on_bridge_events}
use rose_esp.Platform.Cache.Latest.{latest, cached, on_bridge_events-latest}
use rose_esp.Platform.Monitor.{Observation, start, monitor}
use rose_esp.Platform.Monitor.Changes.{Alternates, changes, last_alive, monitor-Alternates}
use rose_esp.Platform.Service.{
  Service, port_bind, port_unbind, directly, run_sync, acknowledged, is_ack, is_connected,
}
use rose_esp.Platform.Errors.{raised, http, status_for, error_map}
use rose_esp.Platform.Api
use rose_esp.Platform.Api.{Web}
use rose_esp.Platform.Api.Stale.{port_bind-stale}
use rose_esp.Platform.Manager
use rose_esp.Platform.Manager.{ConnectionManager, connect}
use rose_esp.Platform.Sockets
use rose_esp.Platform.Sockets.{Message}
use rose_esp.Platform.Sockets.Roles.{comes, goes, Change, after}
use rose_esp.Platform.Executor
use rose_esp.Platform.Executor.{Step}
use rose_esp.Platform.Executor.Steps.{execute_command}
use rose_esp.Platform.Executor.Traces.{Trace, IsAnswered, execute_command-Trace}
use rose_esp.Witness.Data.{text_of, four_zeros, connected}

abbrev platform : Platform
platform = record {
  has_loop = true;
  gpio_cache = [];
  uart_cache = [];
  last_heartbeat_time = pos 0;
  broadcasts = [];
  remembered = [];
}

abbrev value_event : ℤ → Record
value_event v = ("type", string "gpio_value") ∷ ("gpio", number (pos 4)) ∷ ("value", number v) ∷ []

abbrev event_list : List (ℤ × Record)
event_list = (pos 1, value_event (pos 0)) ∷ (pos 2, value_event (pos 1)) ∷ []

on_bridge_events-latest_example :
    cached (on_bridge_events event_list platform) (pos 4) "value"
    ≡ latest event_list (pos 4) "value" none
unfolding get
on_bridge_events-latest_example = on_bridge_events-latest event_list platform (pos 4) "value" refl

abbrev seen : ℤ → Observation ℕ
seen now = record { is_connected = true; last_heartbeat_time = pos 1; now = now; config = some 0 }

-- The device is alive, then silent for too long.
abbrev observations : List (Observation ℕ)
observations = seen (pos 2) ∷ seen (pos 40000000) ∷ []

monitor-Alternates_example :
    Alternates (last_alive false observations) (changes (monitor observations start).broadcasts)
monitor-Alternates_example = monitor-Alternates observations

-- A connected device, and an earlier command that failed with code 6.
abbrev service : Service ℕ
service = record {
  client = record {
    commands = connected;
    events = new;
    uart_listeners = [];
    queues = [];
    listener_count = 0;
    last_error = some (pos 6);
  };
  script = [];
}

abbrev web : Web ℕ
web = record { service = service; broadcasts = [] }

service_connected : is_connected service ≡ true
unfolding is_connected
service_connected = refl

bind_failed : (port_bind text_of (pos 0) (pos 4) (pos 0) service).0 ≡ ok false
unfolding port_bind directly run_sync acknowledged is_ack send await run_calls wait_for_response
    wait try_response with_responses pop_first queue get Commands.port_bind send_encoded
    port_bind_to_bytes pack encode unsigned le_bytes send_command get_next_cmd_id command_frame
    calculate_crc crc_loop crc_bits crc_bit send_frame Connection.send_command Connection.transmit
    to_bytes
bind_failed = refl

unbind_failed : (port_unbind text_of (pos 0) (pos 4) service).0 ≡ ok false
unfolding port_unbind directly run_sync acknowledged is_ack send await run_calls wait_for_response
    wait try_response with_responses pop_first queue get Commands.port_unbind send_encoded
    port_unbind_to_bytes pack encode unsigned le_bytes send_command get_next_cmd_id command_frame
    calculate_crc crc_loop crc_bits crc_bit send_frame Connection.send_command Connection.transmit
    to_bytes
unbind_failed = refl

port_bind-stale_example :
    ((Api.port_bind text_of (pos 0) (pos 4) (pos 0) web).0 ≡ raised (http 404))
    × ((Api.port_unbind text_of (pos 0) (pos 4) web).0 ≡ raised (http 404))
unfolding status_for error_map get
port_bind-stale_example =
    port_bind-stale text_of (pos 0) (pos 4) (pos 0) web service_connected bind_failed unbind_failed

abbrev socket_library : Sockets.Library ℕ
socket_library = record {
  parse_tx = λ msg. err type_error;
  parse_rx = λ msg. err type_error;
  parse_exchange = λ msg. err type_error;
  duty_allowed = λ x. true;
  b64decode = λ s. ok [];
  encode = λ s encoding. ok [];
  half = 0;
  decode_utf8 = text_of;
  strip_lower = λ s. s;
  pack_float = four_zeros;
}

abbrev setting : Message ℕ
setting = record {
  op = some "gpio_set";
  numbers = ("gpio", pos 4) ∷ ("value", pos 1) ∷ [];
  texts = [];
  floats = [];
}

abbrev no_one : ConnectionManager ℕ
no_one = Manager.new

abbrev later : List Change
later = comes 8 "console" ∷ goes 8 ∷ []

abbrev managed : ConnectionManager ℕ
managed = after later (connect 7 "app" no_one)

abbrev step_library : Executor.Library ℕ
step_library = record {
  strip = λ s. s;
  show = λ n. "n";
  b64encode = text_of;
  b64decode = λ s. ok [];
  encode = λ s encoding. ok [];
  half = 0;
  float_of = λ n. 0;
  decode_utf8 = text_of;
  strip_lower = λ s. s;
  pack_float = four_zeros;
}

-- A delay, an unknown step that aborts, and one more delay.
abbrev recipe : List (Step ℕ)
recipe =
    record { step_type = "delay"; config = []; on_error = "abort" }
    ∷ record { step_type = "dance"; config = []; on_error = "abort" }
    ∷ record { step_type = "delay"; config = []; on_error = "abort" }
    ∷ []

execute_command-Trace_example :
    Trace step_library [] 1 recipe
      (record { ctx = []; service = service })
      (execute_command step_library recipe [] service).0
      (execute_command step_library recipe [] service).1
    × IsAnswered recipe (execute_command step_library recipe [] service).0
execute_command-Trace_example = execute_command-Trace step_library [] recipe service
