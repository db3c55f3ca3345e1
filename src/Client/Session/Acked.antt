-- ===== src/Client/Session/Acked.antt =====
-- What `True` of an acknowledged command means, and what `last_error` holds after it.
use Prim.Native.String.{String}
use rose_esp.Prelude.{◌≡◌, refl, true, false, Option, none, some, arith}
use rose_esp.Prelude.Int.{ℤ, pos, eqb_ℤ_iff}
use rose_esp.Prelude.Result.{ok}
use rose_esp.Struct.{Bytes}
use rose_esp.Protocol.Events.{Event, EventCmdAck, cmd_ack}
use rose_esp.Handler.{wait_for_response}
use rose_esp.Handler.Correlation.{IsCorrelated}
use rose_esp.Handler.Waiting.{wait_for_response-CarriesId}
use rose_esp.Dispatcher.Commands.{Method}
use rose_esp.Client.Session.{
  Client, Arrivals, ack_status, send, await, check_ack, await_ack, finish, acked,
}

pub ack_status-true :
    (response : Option Event)
    → (ack_status response).0 ≡ true
    → (ack : EventCmdAck) × (response ≡ some (cmd_ack ack)) × (ack.status ≡ pos 0)
unfolding ack_status
ack_status-true (some (cmd_ack e)) h = (e, refl, ground (arith, eqb_ℤ_iff e.status (pos 0)))
ack_status-true none h = absurd (ground arith)
ack_status-true (some _) h = absurd (ground arith)

pub ack_status-clears : (o : Option Event) → (ack_status o).0 ≡ true → (ack_status o).1 ≡ none
unfolding ack_status
ack_status-clears o h = let (ack, e, z) = ack_status-true o h in rw (e, z) refl

module _ {C : Type 0} (decode_utf8 : Bytes → String) where
  -- The run of an acknowledged command that was sent.
  acked-sent :
      (method : Method) (arrivals : Arrivals) (c : Client C) (cmd_id : ℤ)
      → (method c.commands).0 ≡ ok (some cmd_id)
      → let status = ack_status (wait_for_response decode_utf8 cmd_id arrivals c.events).0 in
        ((acked decode_utf8 method arrivals c).0 ≡ ok status.0)
        × ((acked decode_utf8 method arrivals c).1.last_error ≡ status.1)
  unfolding acked send finish await_ack await check_ack
  acked-sent method arrivals c cmd_id h = rw (h, finish) (refl, refl)

  acked-unsent :
      (method : Method) (arrivals : Arrivals) (c : Client C)
      → (method c.commands).0 ≡ ok none
      → ((acked decode_utf8 method arrivals c).0 ≡ ok false)
        × ((acked decode_utf8 method arrivals c).1.last_error ≡ none)
  unfolding acked send finish
  acked-unsent method arrivals c h = rw (h, finish) (refl, refl)

  -- An acknowledged command that was sent, from a correlated event handler: the result and
  -- `last_error` are those that `_check_ack` gives for what the wait finds, and the result is true
  -- only if this is an acknowledgement of status 0 with the command's own id. A command that could
  -- not be sent returns false and resets `last_error`.
  pub acked_lem :
      (method : Method) (arrivals : Arrivals) (c : Client C)
      → IsCorrelated c.events
      → ((cmd_id : ℤ)
          → (method c.commands).0 ≡ ok (some cmd_id)
          → let found = (wait_for_response decode_utf8 cmd_id arrivals c.events).0 in
            ((acked decode_utf8 method arrivals c).0 ≡ ok (ack_status found).0)
            × ((acked decode_utf8 method arrivals c).1.last_error ≡ (ack_status found).1)
            × ((ack_status found).0 ≡ true
                → (ack : EventCmdAck) × (found ≡ some (cmd_ack ack))
                  × (ack.status ≡ pos 0)
                  × (ack.cmd_id ≡ cmd_id)))
        × ((method c.commands).0 ≡ ok none
            → ((acked decode_utf8 method arrivals c).0 ≡ ok false)
              × ((acked decode_utf8 method arrivals c).1.last_error ≡ none))
  acked_lem method arrivals c v = (
    λ cmd_id h.
        let (r, l) = acked-sent method arrivals c cmd_id h in
        (
          r,
          l,
          λ t.
              let (ack, e, s) = ack_status-true _ t in
              let own =
                (wait_for_response-CarriesId decode_utf8 cmd_id arrivals c.events v).0 _ e in
              (ack, e, s, ground arith),
        ),
    λ h. acked-unsent method arrivals c h,
  )
