-- ===== src/Platform/Service.antt =====
-- The functions of platform/src/services/bridge_service.py, which run the client's methods. The
-- state is the client, and for each coming wait the frames that arrive during it.
use Prim.Native.String.{String}
use rose_esp.Prelude.{ℕ, Bool, false, ◌&&◌, Option, none, some, List, [], ◌∷◌, map}
use rose_esp.Prelude.Int.{ℤ, pos, eqb_ℤ}
use rose_esp.Prelude.Result.{Result, ok}
use rose_esp.Struct.{Bytes}
use rose_esp.Protocol.Opcodes.{event_port_status}
use rose_esp.Protocol.Events.{Event, cmd_ack, port_status as is_port_status}
use rose_esp.Server.Connection.Laws.{is_some}
use rose_esp.Handler.{wait_for_response, wait_for_event_matching, discard_events_matching}
use rose_esp.Dispatcher.Commands
use rose_esp.Dispatcher.Commands.{Method}
use rose_esp.Client.Resolution.{Edge, Resolution}
use rose_esp.Client.Session.{Client, Arrivals, Op, pure, ◌>>=◌, send, await}
use rose_esp.Client.Operations
use rose_esp.Platform.Values.{null, number, Record}
use rose_esp.Platform.Events.{format_mac}

pub record Service (C : Type 0) : Type 0 where
  pub client : Client C
  pub script : List Arrivals

-- A function of the service: its result or the exception, and the state after it.
abbrev pub Run : Type 0 → Type 0 → Type 0
Run C A = Service C → Result A × Service C

-- Nothing arrives during a wait behind the script.
abbrev pub next_arrivals : List Arrivals → Arrivals
next_arrivals [] = []
next_arrivals (a ∷ script) = a

abbrev pub later_arrivals : List Arrivals → List Arrivals
later_arrivals [] = []
later_arrivals (a ∷ script) = script

module _ {C : Type 0} {A : Type 0} where
  -- `_run_sync` of a method that waits once.
  unfoldable pub run_sync : (Arrivals → Op C A) → Run C A
  run_sync method s =
      let (result, client) = method (next_arrivals s.script) s.client in
      (result, record { client = client; script = later_arrivals s.script })

  -- `_run_sync` of a method that waits up to three times.
  unfoldable pub run_sync_thrice : (Arrivals → Arrivals → Arrivals → Op C A) → Run C A
  run_sync_thrice method s =
      let rest = later_arrivals s.script in
      let (result, client) =
        method (next_arrivals s.script) (next_arrivals rest) (next_arrivals (later_arrivals rest))
          s.client in
      (result, record { client = client; script = later_arrivals (later_arrivals rest) })

-- `isinstance(response, EventCmdAck) and response.status == 0`
unfoldable pub is_ack : Option Event → Bool
is_ack (some (cmd_ack e)) = eqb_ℤ e.status (pos 0)
is_ack _ = false

-- The `lambda` of `port_status`.
unfoldable pub of_port : ℤ → ℤ → Event → Bool
of_port resource_type id (is_port_status e) = eqb_ℤ e.resource_type resource_type && eqb_ℤ e.id id
of_port resource_type id _ = false

-- The dict that `port_status` returns; `EventPortStatus` lacks the attributes that are null here.
unfoldable pub port_record : Option Event → Option Record
port_record (some (is_port_status e)) = some (
    ("resource_type", number e.resource_type)
    ∷ ("id", number e.id)
    ∷ ("in_use", number e.in_use)
    ∷ ("mode", number e.mode)
    ∷ ("pull", null)
    ∷ ("edge", null)
    ∷ ("value", number e.value)
    ∷ ("owner", number e.owner)
    ∷ ("adc_raw", null)
    ∷ ("adc_mv", null)
    ∷ [])
port_record _ = none

-- `if not raw: return []`, and the addresses formatted.
unfoldable pub devices_of : Option (List (Bytes × ℤ)) → List (String × ℤ)
devices_of none = []
devices_of (some raw) = map (λ d. (format_mac d.0, d.1)) raw

module _ {C : Type 0} where
  unfoldable pub is_connected : Service C → Bool
  is_connected s = s.client.commands.server.connected

  unfoldable pub get_last_error : Service C → Option ℤ
  get_last_error s = s.client.last_error

  module _ (decode_utf8 : Bytes → String) where
    unfoldable pub gpio_config : ℤ → ℤ → ℤ → ℤ → Run C Bool
    gpio_config gpio mode pull edge =
        run_sync_thrice (Operations.configure_gpio decode_utf8 gpio mode pull edge)

    unfoldable pub gpio_set : ℤ → ℤ → Run C Bool
    gpio_set gpio value = run_sync (Operations.set_gpio decode_utf8 gpio value)

    unfoldable pub gpio_get : ℤ → Run C (Option ℤ)
    gpio_get gpio = run_sync (Operations.get_gpio decode_utf8 gpio)

    unfoldable pub adc_sample : ℤ → ℤ → Run C (Option ℤ)
    adc_sample gpio samples = run_sync (Operations.read_adc decode_utf8 gpio samples)

    unfoldable pub uart_config : ℤ → ℤ → ℤ → ℤ → ℤ → ℤ → ℤ → Run C Bool
    uart_config uart_id baudrate tx_gpio rx_gpio data_bits parity stop_bits =
        run_sync_thrice (λ first unbinding again.
          Operations.configure_uart decode_utf8 uart_id baudrate tx_gpio rx_gpio data_bits parity
            stop_bits first unbinding again
          >>= λ listener. pure (is_some listener))

    unfoldable pub uart_send : ℤ → Bytes → Run C Bool
    uart_send uart_id data_ = run_sync (Operations.send_uart decode_utf8 uart_id data_)

    unfoldable pub uart_read : ℤ → ℕ → Run C (Option Bytes)
    uart_read uart_id length_ = run_sync (Operations.read_uart decode_utf8 uart_id length_)

    -- A command of the dispatcher whose acknowledgement the service waits for by itself.
    unfoldable pub acknowledged : Arrivals → Option ℤ → Op C Bool
    acknowledged arrivals none = pure false
    acknowledged arrivals (some cmd_id) = do
      response ← await (wait_for_response decode_utf8 cmd_id arrivals)
      pure (is_ack response)

    unfoldable pub directly : Method → Run C Bool
    directly method = run_sync (λ arrivals. send method >>= acknowledged arrivals)

    unfoldable pub port_bind : ℤ → ℤ → ℤ → Run C Bool
    port_bind resource_type id owner_id = directly (Commands.port_bind resource_type id owner_id)

    unfoldable pub port_unbind : ℤ → ℤ → Run C Bool
    port_unbind resource_type id = directly (Commands.port_unbind resource_type id)

    unfoldable pub thread_passthrough : ℤ → Bytes → ℤ → Run C Bool
    thread_passthrough device_id payload correlation_id =
        directly (Commands.thread_passthrough device_id payload correlation_id)

    -- `events.discard_events_matching(…)`
    unfoldable pub discard_port : ℤ → ℤ → Op C (Unit {0})
    discard_port resource_type id c =
        let (events, removed) =
          discard_events_matching event_port_status (of_port resource_type id) c.events in
        (ok tt, record c { events = events })

    unfoldable pub port_answer : ℤ → ℤ → Arrivals → Option ℤ → Op C (Option Record)
    port_answer resource_type id arrivals none = pure none
    port_answer resource_type id arrivals (some cmd_id) = do
      response ← await (
          wait_for_event_matching decode_utf8 event_port_status (of_port resource_type id) arrivals)
      pure (port_record response)

    unfoldable pub port_status : ℤ → ℤ → Run C (Option Record)
    port_status resource_type id = run_sync (λ arrivals. discard_port resource_type id >>= λ _.
        send (Commands.port_status resource_type id) >>= port_answer resource_type id arrivals)

    unfoldable pub ble_enable_pairing : ℤ → Run C (Option Bytes)
    ble_enable_pairing timeout_s = run_sync (Operations.enable_ble_pairing decode_utf8 timeout_s)

    unfoldable pub ble_disable_pairing : Run C Bool
    ble_disable_pairing = run_sync (Operations.disable_ble_pairing decode_utf8)

    unfoldable pub ble_get_in_range : Run C (List (String × ℤ))
    ble_get_in_range = run_sync (λ arrivals.
        Operations.get_ble_in_range decode_utf8 arrivals >>= λ raw. pure (devices_of raw))

    unfoldable pub ble_start_scan : ℤ → Run C Bool
    ble_start_scan interval_s = run_sync (Operations.start_ble_scan decode_utf8 interval_s)

    unfoldable pub ble_stop_scan : Run C Bool
    ble_stop_scan = run_sync (Operations.stop_ble_scan decode_utf8)

    unfoldable pub ble_delete_bond : Bytes → Run C Bool
    ble_delete_bond device_mac = run_sync (Operations.delete_ble_bond decode_utf8 device_mac)

    unfoldable pub ping : Run C Bool
    ping = run_sync (Operations.ping decode_utf8)

    -- `timestamp` is the time that the dispatcher's `heartbeat` reads.
    unfoldable pub heartbeat : ℤ → Run C (Option ℤ)
    heartbeat timestamp = run_sync (Operations.heartbeat_state decode_utf8 timestamp)

    unfoldable pub sync_request : Run C (Option ℤ)
    sync_request = run_sync (Operations.request_sync decode_utf8)

    unfoldable pub sync_confirm : ℤ → ℤ → Run C Bool
    sync_confirm correlation_id stage =
        run_sync (Operations.confirm_sync decode_utf8 correlation_id stage)

    module _ (strip_lower : String → String) where
      unfoldable pub signal_rx : ℤ → ℤ → ℤ → Resolution → Run C (Option (List Edge))
      signal_rx gpio timeout_us max_edges resolution =
          run_sync
            (Operations.receive_signal decode_utf8 strip_lower gpio timeout_us max_edges resolution)

      module _ {F : Type 0} (pack_float : F → Result Bytes) where
        unfoldable pub signal_tx : ℤ → List Edge → ℤ → ℤ → F → ℤ → ℤ → Run C Bool
        signal_tx gpio signal delay_us carrier_hz duty_cycle repeat repeat_gap_us = run_sync (
            Operations.send_signal decode_utf8 strip_lower pack_float gpio signal delay_us
              carrier_hz duty_cycle repeat repeat_gap_us)

        unfoldable pub signal_exchange :
            ℤ → List Edge → ℤ → ℤ → ℤ → ℤ → F → Resolution → Run C (Option (List Edge))
        signal_exchange gpio tx_signal delay_us rx_total_us rx_max_edges carrier_hz duty_cycle
              resolution =
            run_sync (
              Operations.exchange_signals decode_utf8 strip_lower pack_float gpio tx_signal delay_us
                carrier_hz duty_cycle rx_total_us rx_max_edges resolution)
