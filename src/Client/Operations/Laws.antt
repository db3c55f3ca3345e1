-- ===== src/Client/Operations/Laws.antt =====
-- The second try of `configure_gpio`.
use Prim.Native.String.{String}
use rose_esp.Prelude.{◌≡◌, ◌∙◌, refl, Bool, true, false, Option, none, some, arith}
use rose_esp.Prelude.Int.{ℤ}
use rose_esp.Prelude.Result.{Result, ok, err}
use rose_esp.Struct.{Bytes}
use rose_esp.Handler.{wait_for_response}
use rose_esp.Dispatcher.Commands
use rose_esp.Dispatcher.Commands.{Method}
use rose_esp.Client.Session.{
  Client, Arrivals, Op, send, await, await_ack, bound, check_ack, ack_status, finish,
}
use rose_esp.Client.Session.Acked.{ack_status-clears}
use rose_esp.Client.Operations.{drain, retry, try_again, unless, configure_gpio}

module _ {C : Type 0} (decode_utf8 : Bytes → String) where
  await_ack-eq :
      (cmd_id : ℤ) (arrivals : Arrivals) (c : Client C)
      → let status = ack_status (wait_for_response decode_utf8 cmd_id arrivals c.events).0 in
        ((await_ack decode_utf8 cmd_id arrivals c).0 ≡ ok status.0)
        × ((await_ack decode_utf8 cmd_id arrivals c).1.last_error ≡ status.1)
  unfolding await_ack await check_ack
  await_ack-eq cmd_id arrivals c = (refl, refl)

  await_ack-clears :
      (cmd_id : ℤ) (arrivals : Arrivals) (c : Client C)
      → (await_ack decode_utf8 cmd_id arrivals c).0 ≡ ok true
      → (await_ack decode_utf8 cmd_id arrivals c).1.last_error ≡ none
  await_ack-clears cmd_id arrivals c h =
      let (r, l) = await_ack-eq cmd_id arrivals c in l ∙ ack_status-clears _ (ground (arith, r))

  -- True with the error reset, if it is true.
  abbrev Clears : Result Bool × Client C → Type 0
  Clears (r, c) = r ≡ ok true → c.last_error ≡ none

  Clears-bound :
      {A : Type 0} (p : Result A × Client C) (f : A → Op C Bool)
      → ((a : A) → p.0 ≡ ok a → Clears (f a p.1))
      → Clears (bound p f)
  Clears-bound (ok a, c) f h = h a refl
  Clears-bound (err e, c) f h = λ r. absurd (ground arith)

  finish-Clears :
      (arrivals : Arrivals) (o : Option ℤ) (c : Client C) → Clears (finish decode_utf8 arrivals o c)
  unfolding finish
  finish-Clears arrivals none c = λ r. refl
  finish-Clears arrivals (some cmd_id) c = await_ack-clears cmd_id arrivals c

  retry-Clears :
      (again : Arrivals) (o : Option ℤ) (c : Client C) → Clears (retry decode_utf8 again o c)
  unfolding retry
  retry-Clears again none c = λ r. absurd (ground arith)
  retry-Clears again (some cmd_id) c = await_ack-clears cmd_id again c

  try_again-Clears :
      (unbind method : Method) (unbinding again : Arrivals) (c : Client C)
      → Clears (try_again decode_utf8 unbind method unbinding again c)
  unfolding try_again
  try_again-Clears unbind method unbinding again c = Clears-bound (send unbind c) _ (λ a _.
      Clears-bound (drain decode_utf8 unbinding a (send unbind c).1) _ (λ x _.
        Clears-bound (send method (drain decode_utf8 unbinding a (send unbind c).1).1) _
          (λ o _. retry-Clears again o _)))

  unless-Clears :
      (o : Option ℤ) (done : Bool) (second : Op C Bool) (c : Client C)
      → (done ≡ true → c.last_error ≡ none)
      → Clears (second c)
      → Clears (unless o done second c)
  unfolding unless
  unless-Clears none done second c h s = λ r. absurd (ground arith)
  unless-Clears (some cmd_id) true second c h s = λ r. h refl
  unless-Clears (some cmd_id) false second c h s = s

  -- If `configure_gpio` returns true, at the first try or at the second, `last_error` is reset.
  pub configure_gpio_lem :
      (gpio mode pull edge : ℤ) (first unbinding again : Arrivals) (c : Client C)
      → (configure_gpio decode_utf8 gpio mode pull edge first unbinding again c).0 ≡ ok true
      → (configure_gpio decode_utf8 gpio mode pull edge first unbinding again c).1.last_error ≡ none
  unfolding configure_gpio
  configure_gpio_lem gpio mode pull edge first unbinding again c =
      let sent = send (Commands.gpio_config gpio mode pull edge) c in
      Clears-bound sent _ (λ o _.
        let tried = finish decode_utf8 first o sent.1 in
        Clears-bound tried _ (λ done r.
          unless-Clears o done _ tried.1 (λ d. finish-Clears first o sent.1 (rw d at r))
            (try_again-Clears _ _ unbinding again tried.1)))
