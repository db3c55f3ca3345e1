-- ===== src/Client/Session.antt =====
-- `IoTAgentClient` and `UartRxListener` of bridge/src/client.py: the state, the callback on UART
-- data, and the acknowledgement that most commands wait for. A listener object is a number in
-- `queues`, since its owner keeps it when another one takes its place.
pub mod Acked
pub mod Listeners
use Prim.Native.String.{String}
use rose_esp.Prelude.{
  ℕ, suc, Bool, true, false, Option, none, some, List, [], ◌∷◌, ◌++◌, if◌then◌else◌,
}
use rose_esp.Prelude.Int.{ℤ, pos, eqb_ℤ}
use rose_esp.Prelude.Eq.{nat_eq, int_eq}
use rose_esp.Prelude.Dict.{Dict, get, put}
use rose_esp.Prelude.Result.{Result, ok, err}
use rose_esp.Struct.{Bytes}
use rose_esp.Protocol.Frame.{MessageFrame}
use rose_esp.Protocol.Events.{Event, cmd_ack, uart_rx, error}
use rose_esp.Handler.{EventHandler, wait_for_response, clear_pending}
use rose_esp.Handler.Queues.{queue, push, pop_first}
use rose_esp.Dispatcher.{CommandDispatcher}
use rose_esp.Dispatcher.Commands.{Method}

-- A callback: the client's own `_handle_uart_rx_event`, or one that was registered by its user.
pub data Callback (C : Type 0) : Type 0 where
  handle_uart_rx : Callback C
  registered : C → Callback C

pub record Client (C : Type 0) : Type 0 where
  pub commands : CommandDispatcher
  pub events : EventHandler (Callback C)
  pub uart_listeners : Dict ℤ ℕ
  pub queues : Dict ℕ (List Bytes)
  pub listener_count : ℕ
  pub last_error : Option ℤ

-- The frames that arrive during one wait, one list for each poll.
abbrev pub Arrivals : Type 0
Arrivals = List (List MessageFrame)

-- A method of the client: its result or the exception, and the client after it.
abbrev pub Op : Type 0 → Type 0 → Type 0
Op C A = Client C → Result A × Client C

-- What `_check_ack` returns for a response, and the code that it stores.
unfoldable pub ack_status : Option Event → Bool × Option ℤ
ack_status (some (cmd_ack e)) =
    if eqb_ℤ e.status (pos 0) then (true, none) else (false, some e.error_code)
ack_status (some (error e)) = (false, some e.err_code)
ack_status _ = (false, none)

module _ {C : Type 0} where
  module _ {A : Type 0} where
    abbrev pub pure : A → Op C A
    pure a c = (ok a, c)

    abbrev pub bound : {B : Type 0} → Result A × Client C → (A → Op C B) → Result B × Client C
    bound (ok a, c) f = f a c
    bound (err e, c) f = (err e, c)

    infixl 5 ◌>>=◌
    abbrev pub ◌>>=◌ : {B : Type 0} → Op C A → (A → Op C B) → Op C B
    (m >>= f) c = bound (m c) f

  -- `listener.put(event.data)`
  unfoldable pub put_data : Option ℕ → Bytes → Client C → Client C
  put_data none received c = c
  put_data (some listener) received c = record c { queues = push c.queues listener received }

  unfoldable pub handle_uart_rx_event : Event → Client C → Client C
  handle_uart_rx_event (uart_rx e) c = put_data (get c.uart_listeners e.uart_id) e.received c
  handle_uart_rx_event _ c = c

  -- What the event handler's calls do to the client: a user's callback does nothing to it.
  unfoldable pub run_calls : List (Callback C × Event) → Client C → Client C
  run_calls [] c = c
  run_calls ((handle_uart_rx, event) ∷ made) c = run_calls made (handle_uart_rx_event event c)
  run_calls ((registered f, event) ∷ made) c = run_calls made c

  -- `self._uart_listeners[uart_id] = UartRxListener()`, and the listener.
  unfoldable pub add_listener : ℤ → Op C ℕ
  add_listener uart_id c =
      let listener = c.listener_count in
      (
        ok listener,
        record c {
          uart_listeners = put c.uart_listeners uart_id listener;
          queues = put c.queues listener [];
          listener_count = suc listener;
        },
      )

  -- `UartRxListener.read`, without the time that `get` waits: the oldest data, if there is any.
  unfoldable pub read_listener : ℕ → Op C (Option Bytes)
  read_listener listener c = elim (pop_first c.queues listener) [
    | none ↦ (ok none, c)
    | some (received, rest) ↦ (ok (some received), record c { queues = rest })
  ]

  -- A call of `self.commands`.
  unfoldable pub send : Method → Op C (Option ℤ)
  send method c = let (sent, d) = method c.commands in (sent, record c { commands = d })

  -- A call of `self.events.wait_for_…`.
  unfoldable pub await :
      (EventHandler (Callback C)
        → Option Event × EventHandler (Callback C) × List (Callback C × Event))
      → Op C (Option Event)
  await waits c =
      let (found, h, made) = waits c.events in (ok found, run_calls made (record c { events = h }))

  -- `self.last_error = code`
  unfoldable pub set_error : Option ℤ → Op C (Unit {0})
  set_error code c = (ok tt, record c { last_error = code })

  -- `_check_ack`
  unfoldable pub check_ack : Option Event → Op C Bool
  check_ack response c =
      let (success, code) = ack_status response in (ok success, record c { last_error = code })

  -- The start of `wait_for_connection` once a device is there.
  unfoldable pub clear_stale : Client C → Client C
  clear_stale c = record c { events = clear_pending c.events }

  module _ (decode_utf8 : Bytes → String) where
    -- `self._check_ack(self.events.wait_for_response(cmd_id))`
    unfoldable pub await_ack : ℤ → Arrivals → Op C Bool
    await_ack cmd_id arrivals = await (wait_for_response decode_utf8 cmd_id arrivals) >>= check_ack

    -- From `if cmd_id is None` to the end, as most commands have it.
    unfoldable pub finish : Arrivals → Option ℤ → Op C Bool
    finish arrivals none c = (ok false, record c { last_error = none })
    finish arrivals (some cmd_id) c = await_ack cmd_id arrivals c

    -- A command that is sent and acknowledged.
    unfoldable pub acked : Method → Arrivals → Op C Bool
    acked method arrivals = send method >>= finish arrivals
