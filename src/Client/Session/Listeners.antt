-- ===== src/Client/Session/Listeners.antt =====
-- The listeners of UART data: the one that was made last for a UART gets what arrives on it.
use rose_esp.Prelude.{
  ℕ, ◌<◌, ◌≡◌, ◌≢◌, ◌∙◌, ap, refl, sym, Option, none, some, List, [], ◌∷◌, ◌++◌, arith, append-nil,
  append_assoc, if◌then◌else◌, inl, inr, Bool-cases,
}
use rose_esp.Prelude.Int.{ℤ, eqb_ℤ, eqb_ℤ_iff}
use rose_esp.Prelude.Eq.{nat_eq, int_eq}
use rose_esp.Prelude.Dict.{Dict, get, put, get-put}
use rose_esp.Prelude.Result.{ok}
use rose_esp.Struct.{Bytes}
use rose_esp.Protocol.Events.{Event, uart_rx}
use rose_esp.Handler.Queues.{queue}
use rose_esp.Handler.Queues.Laws.{queue-push}
use rose_esp.Client.Session.{
  Callback, handle_uart_rx, registered, Client, put_data, handle_uart_rx_event, run_calls,
  add_listener,
}

-- What the events bring for a UART, in order.
pub arrived_for : ℤ → Event → List Bytes
arrived_for uart_id (uart_rx e) = if eqb_ℤ e.uart_id uart_id then e.received ∷ [] else []
arrived_for uart_id _ = []

-- The listener of this UART, and of no other.
abbrev Owns : Dict ℤ ℕ → ℤ → ℕ → Type 0
Owns listeners uart_id l =
    (get listeners uart_id ≡ some l) × ((j : ℤ) → get listeners j ≡ some l → j ≡ uart_id)

module _ {C : Type 0} where
  -- The data of the calls of the client's own callback that is for a UART.
  pub data_for : ℤ → List (Callback C × Event) → List Bytes
  data_for uart_id [] = []
  data_for uart_id ((handle_uart_rx, event) ∷ made) =
      arrived_for uart_id event ++ data_for uart_id made
  data_for uart_id ((registered f, event) ∷ made) = data_for uart_id made

  -- The listeners in use are all among those that were made.
  abbrev pub IsNumbered : Client C → Type 0
  IsNumbered c =
      (uart_id : ℤ) (l : ℕ) → get c.uart_listeners uart_id ≡ some l → l < c.listener_count

  put_data-own :
      (o : Option ℕ) (received : Bytes) (l : ℕ) (c : Client C)
      → o ≡ some l
      → queue (put_data o received c).queues l ≡ queue c.queues l ++ received ∷ []
  unfolding put_data
  put_data-own o received l c h =
      rw h (ground (arith, queue-push c.queues l l received, nat_eq.beq_iff l l))

  put_data-other :
      (o : Option ℕ) (received : Bytes) (l : ℕ) (c : Client C)
      → o ≢ some l
      → queue (put_data o received c).queues l ≡ queue c.queues l
  unfolding put_data
  put_data-other none received l c h = refl
  put_data-other (some k) received l c h =
      ground (arith, queue-push c.queues k l received, nat_eq.beq_iff k l)

  put_data-listeners :
      (o : Option ℕ) (received : Bytes) (c : Client C)
      → (put_data o received c).uart_listeners ≡ c.uart_listeners
  unfolding put_data
  put_data-listeners none received c = refl
  put_data-listeners (some k) received c = refl

  event-listeners :
      (event : Event) (c : Client C)
      → (handle_uart_rx_event event c).uart_listeners ≡ c.uart_listeners
  unfolding handle_uart_rx_event
  event-listeners (uart_rx e) c = put_data-listeners (get c.uart_listeners e.uart_id) e.received c
  event-listeners _ c = refl

  event-queue :
      (event : Event) (uart_id : ℤ) (l : ℕ) (c : Client C)
      → Owns c.uart_listeners uart_id l
      → queue (handle_uart_rx_event event c).queues l
        ≡ queue c.queues l ++ arrived_for uart_id event
  unfolding handle_uart_rx_event arrived_for
  event-queue (uart_rx e) uart_id l c (own, only) = elim (Bool-cases (eqb_ℤ e.uart_id uart_id)) [
    | inl t ↦
        let same : e.uart_id ≡ uart_id = (eqb_ℤ_iff e.uart_id uart_id).0 t in
        let mine : get c.uart_listeners e.uart_id ≡ some l = rw same own in
        rw t (put_data-own (get c.uart_listeners e.uart_id) e.received l c mine)
    | inr f ↦
        let foreign : get c.uart_listeners e.uart_id ≢ some l =
          λ g. absurd (ground (arith, only e.uart_id g, eqb_ℤ_iff e.uart_id uart_id)) in
        rw f (
          put_data-other (get c.uart_listeners e.uart_id) e.received l c foreign
          ∙ sym (append-nil (queue c.queues l)))
  ]
  event-queue _ uart_id l c h = sym (append-nil (queue c.queues l))

  run_calls-queue :
      (made : List (Callback C × Event)) (uart_id : ℤ) (l : ℕ) (c : Client C)
      → Owns c.uart_listeners uart_id l
      → queue (run_calls made c).queues l ≡ queue c.queues l ++ data_for uart_id made
  unfolding run_calls data_for
  run_calls-queue [] uart_id l c h = sym (append-nil (queue c.queues l))
  run_calls-queue ((handle_uart_rx, event) ∷ made) uart_id l c h =
      run_calls-queue made uart_id l (handle_uart_rx_event event c) (rw (event-listeners event c) h)
      ∙ ap (λ q. q ++ data_for uart_id made) (event-queue event uart_id l c h)
      ∙ append_assoc (queue c.queues l) (arrived_for uart_id event) (data_for uart_id made)
  run_calls-queue ((registered f, event) ∷ made) uart_id l c h = run_calls-queue made uart_id l c h

  add_listener-Owns :
      (uart_id : ℤ) (c : Client C)
      → IsNumbered c
      → Owns (put c.uart_listeners uart_id c.listener_count) uart_id c.listener_count
  add_listener-Owns uart_id c h = (
    rw (get-put c.uart_listeners uart_id uart_id c.listener_count)
        (ground (arith, eqb_ℤ_iff uart_id uart_id)),
    λ j g. elim (Bool-cases (eqb_ℤ uart_id j)) [
      | inl t ↦ sym ((eqb_ℤ_iff uart_id j).0 t)
      | inr f ↦
          let old : get c.uart_listeners j ≡ some c.listener_count =
            ground (arith, get-put c.uart_listeners uart_id j c.listener_count) in
          absurd (omega (arith, h j c.listener_count old))
    ],
  )

  add_listener-IsNumbered :
      (uart_id : ℤ) (c : Client C) → IsNumbered c → IsNumbered (add_listener uart_id c).1
  unfolding add_listener
  add_listener-IsNumbered uart_id c h j l g = elim (Bool-cases (eqb_ℤ uart_id j)) [
    | inl t ↦ ground (arith, get-put c.uart_listeners uart_id j c.listener_count)
    | inr f ↦
        let old : get c.uart_listeners j ≡ some l =
          ground (arith, get-put c.uart_listeners uart_id j c.listener_count) in
        omega (arith, h j l old)
  ]

  fresh_queue : (c : Client C) → queue (put c.queues c.listener_count []) c.listener_count ≡ []
  unfolding queue
  fresh_queue c = ground (
    arith,
    get-put c.queues c.listener_count c.listener_count [],
    nat_eq.beq_iff c.listener_count c.listener_count,
  )

  -- If no UART has a listener whose number is still free, a new listener is the next free number,
  -- and this stays so. Whatever calls of callbacks come then, until another listener is made or
  -- one is read, its queue holds the data of those calls of the client's own callback that are for
  -- its UART, in the order of arrival, and nothing else.
  pub run_calls-add_listener :
      (uart_id : ℤ) (made : List (Callback C × Event)) (c : Client C)
      → IsNumbered c
      → ((add_listener uart_id c).0 ≡ ok c.listener_count)
        × IsNumbered (add_listener uart_id c).1
        × (queue (run_calls made (add_listener uart_id c).1).queues c.listener_count
            ≡ data_for uart_id made)
  unfolding add_listener
  run_calls-add_listener uart_id made c h = (
    refl,
    add_listener-IsNumbered uart_id c h,
    run_calls-queue made uart_id c.listener_count _ (add_listener-Owns uart_id c h)
        ∙ ap (λ q. q ++ data_for uart_id made) (fresh_queue c),
  )
