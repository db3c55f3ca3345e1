-- ===== src/Platform/Api/Stale.antt =====
-- The reason that the web interface gives for a failed command. The commands that the service sends
-- without the client's methods do not touch `last_error`.
use Prim.Native.String.{String}
use rose_esp.Prelude.{
  ℕ, ◌≡◌, ◌∙◌, refl, ap, Bool, true, false, Option, none, some, List, [], ◌∷◌, arith, if◌then◌else◌,
}
use rose_esp.Prelude.Int.{ℤ}
use rose_esp.Prelude.Result.{Result, ok, err}
use rose_esp.Struct.{Bytes}
use rose_esp.Protocol.Events.{Event, uart_rx}
use rose_esp.Handler.{wait_for_response}
use rose_esp.Dispatcher.Commands
use rose_esp.Dispatcher.Commands.{Method}
use rose_esp.Client.Session.{
  Client, Arrivals, Op, Callback, handle_uart_rx, registered, put_data, handle_uart_rx_event,
  run_calls, send, await, bound,
}
use rose_esp.Platform.Service.{
  Service, Run, run_sync, acknowledged, directly, port_bind, port_unbind, is_connected,
  get_last_error,
}
use rose_esp.Platform.Errors.{Answer, raised, http, status_for, check_connected, check_bridge_ok}
use rose_esp.Platform.Api
use rose_esp.Platform.Api.{Web, ◌>>=◌}

module _ {C : Type 0} where
  put_data-last_error :
      (listener : Option ℕ) (received : Bytes) (c : Client C)
      → (put_data listener received c).last_error ≡ c.last_error
  unfolding put_data
  put_data-last_error none received c = refl
  put_data-last_error (some listener) received c = refl

  handle_uart_rx_event-last_error :
      (event : Event) (c : Client C) → (handle_uart_rx_event event c).last_error ≡ c.last_error
  unfolding handle_uart_rx_event
  handle_uart_rx_event-last_error (uart_rx e) c = put_data-last_error _ e.received c
  handle_uart_rx_event-last_error _ c = refl

  run_calls-last_error :
      (made : List (Callback C × Event)) (c : Client C)
      → (run_calls made c).last_error ≡ c.last_error
  unfolding run_calls
  run_calls-last_error [] c = refl
  run_calls-last_error ((handle_uart_rx, event) ∷ made) c =
      run_calls-last_error made (handle_uart_rx_event event c)
      ∙ handle_uart_rx_event-last_error event c
  run_calls-last_error ((registered f, event) ∷ made) c = run_calls-last_error made c

  module _ (decode_utf8 : Bytes → String) where
    acknowledged-last_error :
        (arrivals : Arrivals) (o : Option ℤ) (c : Client C)
        → (acknowledged decode_utf8 arrivals o c).1.last_error ≡ c.last_error
    unfolding acknowledged await
    acknowledged-last_error arrivals none c = refl
    acknowledged-last_error arrivals (some cmd_id) c =
        let (found, h, made) = wait_for_response decode_utf8 cmd_id arrivals c.events in
        run_calls-last_error made (record c { events = h })

    sent-last_error :
        {A : Type 0} (sent : Result A) (f : A → Op C Bool) (c : Client C)
        → ((a : A) → (f a c).1.last_error ≡ c.last_error)
        → (bound (sent, c) f).1.last_error ≡ c.last_error
    sent-last_error (err e) f c h = refl
    sent-last_error (ok a) f c h = h a

    directly-last_error :
        (method : Method) (s : Service C)
        → (directly decode_utf8 method s).1.client.last_error ≡ s.client.last_error
    unfolding directly run_sync send
    directly-last_error method s =
        let (sent, d) = method s.client.commands in
        sent-last_error sent (acknowledged decode_utf8 _) (record s.client { commands = d })
          (λ a. acknowledged-last_error _ a (record s.client { commands = d }))

  -- An endpoint that checks the connection, runs a command and checks its result.
  abbrev endpoint : {A : Type 0} → Run C Bool → A → Web C → Answer A × Web C
  endpoint run a = Api.connected >>= λ _. Api.done run >>= λ _. Api.pure a

  checked-false :
      {A : Type 0} (r : Result Bool) (s : Service C) (w : Web C) (a : A)
      → r ≡ ok false
      → (Api.bound
          (Api.bound (Api.unhandled_if r, record w { service = s }) Api.ensure)
          (λ _. Api.pure a)).0
        ≡ raised (http (status_for s.client.last_error))
  unfolding check_bridge_ok get_last_error
  checked-false (ok false) s w a h = refl
  checked-false (ok true) s w a h = absurd (ground arith)
  checked-false (err e) s w a h = absurd (ground arith)

  endpoint-false :
      {A : Type 0} (run : Run C Bool) (a : A) (w : Web C)
      → is_connected w.service ≡ true
      → (run w.service).0 ≡ ok false
      → (run w.service).1.client.last_error ≡ w.service.client.last_error
      → (endpoint run a w).0 ≡ raised (http (status_for w.service.client.last_error))
  unfolding check_connected
  endpoint-false run a w c f l =
      rw (c, if◌then◌else◌)
        (checked-false (run w.service).0 (run w.service).1 w a f
          ∙ ap (λ code. raised (http (status_for code))) l)

  -- If, on a connected device, binding and unbinding a port fail, the status of the answers to them
  -- is the one for the error code that an earlier command left: they set none of their own.
  pub port_bind-stale :
      (decode_utf8 : Bytes → String) (resource_type id owner_id : ℤ) (w : Web C)
      → is_connected w.service ≡ true
      → (port_bind decode_utf8 resource_type id owner_id w.service).0 ≡ ok false
      → (port_unbind decode_utf8 resource_type id w.service).0 ≡ ok false
      → let status = status_for w.service.client.last_error in
        ((Api.port_bind decode_utf8 resource_type id owner_id w).0 ≡ raised (http status))
        × ((Api.port_unbind decode_utf8 resource_type id w).0 ≡ raised (http status))
  unfolding Api.port_bind Api.port_unbind port_bind port_unbind
  port_bind-stale decode_utf8 resource_type id owner_id w c f g = (
    endpoint-false (port_bind decode_utf8 resource_type id owner_id) (resource_type, id) w c f
        (directly-last_error decode_utf8 (Commands.port_bind resource_type id owner_id) w.service),
    endpoint-false (port_unbind decode_utf8 resource_type id) (resource_type, id) w c g
        (directly-last_error decode_utf8 (Commands.port_unbind resource_type id) w.service),
  )
