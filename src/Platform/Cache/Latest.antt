-- ===== src/Platform/Cache/Latest.antt =====
-- The pins' cache against a specification without state: the last write to a pin's key.
use Prim.Native.String.{String}
use text.Mathlib.Text.{◌==◌ as str_eq}
use rose_esp.Prelude.{
  ◌≡◌, ◌∙◌, refl, ap, sym, true, Option, none, some, List, [], ◌∷◌, arith, if◌then◌else◌,
  Bool-cases, inl, inr,
}
use mathlib.Core.Path.{subst}
use rose_esp.Prelude.Int.{ℤ, eqb_ℤ, eqb_ℤ_iff}
use rose_esp.Prelude.Eq.{string_eq, int_eq}
use rose_esp.Prelude.Dict.{Dict, get, put, get-put}
use rose_esp.Prelude.Result.{Error, Result, ok, err, >>=-eq-ok, Result-cases}
use rose_esp.Platform.Values.{Value, Record}
use rose_esp.Platform.Updates.{uart_status_entry}
use rose_esp.Platform.Cache.{
  Platform, merge, entry_of, update_gpio_cache, apply_update, Branch, uart_branch, branch,
  gpio_update, finish_branch, handle, on_bridge_event, on_bridge_events,
}

-- The last value for a key in an update, or the old one.
pub newest : Record → String → Option Value → Option Value
newest [] k old = old
newest ((j, v) ∷ update) k old = newest update k (if str_eq j k then some v else old)

-- The write to a pin, for what the update of an event computes to.
abbrev pub update_of : Result (Option (ℤ × Record)) → ℤ → Record
update_of (err e) gpio = []
update_of (ok none) gpio = []
update_of (ok (some (g, update))) gpio = if eqb_ℤ g gpio then update else []

-- What an event writes to a pin.
abbrev pub update_for : ℤ → Record → Record
update_for gpio event = update_of (gpio_update (branch event) event) gpio

-- The specification: the last write of all events.
pub latest : List (ℤ × Record) → ℤ → String → Option Value → Option Value
latest [] gpio k old = old
latest ((now, event) ∷ events) gpio k old =
    latest events gpio k (newest (update_for gpio event) k old)

-- What the cache holds under a pin's key.
abbrev pub cached : Platform → ℤ → String → Option Value
cached p gpio k = get (entry_of p.gpio_cache gpio) k

get-merge :
    (update entry : Record) (k : String)
    → get (merge update entry) k ≡ newest update k (get entry k)
unfolding merge newest
get-merge [] entry k = refl
get-merge ((j, v) ∷ update) entry k =
    get-merge update (put entry j v) k ∙ ap (newest update k) (get-put entry j k v)

entry_of-put :
    (cache : Dict ℤ Record) (g gpio : ℤ) (entry : Record)
    → entry_of (put cache g entry) gpio ≡ (if eqb_ℤ g gpio then entry else entry_of cache gpio)
entry_of-put cache g gpio entry = ground (arith, get-put cache g gpio entry)

update_gpio_cache-cached :
    (g gpio : ℤ) (update : Record) (k : String) (p : Platform)
    → cached (update_gpio_cache g update p) gpio k
      ≡ newest (if eqb_ℤ g gpio then update else []) k (cached p gpio k)
unfolding update_gpio_cache newest
update_gpio_cache-cached g gpio update k p =
    ap (λ e. get e k) (entry_of-put p.gpio_cache g gpio (merge update (entry_of p.gpio_cache g)))
    ∙ elim (Bool-cases (eqb_ℤ g gpio)) [
      | inl t ↦
          let same : g ≡ gpio = (eqb_ℤ_iff g gpio).0 t in
          rw (t, if◌then◌else◌) (rw same (get-merge update (entry_of p.gpio_cache gpio) k))
      | inr f ↦ rw (f, if◌then◌else◌) refl
    ]

apply_update-cached :
    (o : Option (ℤ × Record)) (gpio : ℤ) (k : String) (p : Platform)
    → (cached (apply_update o p) gpio k ≡ newest (update_of (ok o) gpio) k (cached p gpio k))
      × ((apply_update o p).has_loop ≡ p.has_loop)
unfolding newest
apply_update-cached none gpio k p = (refl, refl)
apply_update-cached (some (g, update)) gpio k p =
    (update_gpio_cache-cached g gpio update k p, unfold update_gpio_cache in refl)

-- Besides the update, a branch leaves the cache of the pins alone; only the branch of "uart_status",
-- which has no update, raises there.
finish_branch-caches :
    (now : ℤ) (b : Branch) (event : Record) (p : Platform) {q : Platform}
    → finish_branch now b event p ≡ ok q
    → (q.gpio_cache ≡ p.gpio_cache) × (q.has_loop ≡ p.has_loop)
unfolding finish_branch
finish_branch-caches now uart_branch event p {q} h =
    let ((uart_id, entry), _, e) = >>=-eq-ok (uart_status_entry event) _ {b = q} h in
    (ground arith, ground arith)
finish_branch-caches now b event p h = (ground arith, ground arith)

finish_branch-raises :
    (now : ℤ) (b : Branch) (event : Record) (p : Platform) {e : Error}
    → finish_branch now b event p ≡ err e
    → gpio_update b event ≡ ok none
unfolding finish_branch gpio_update
finish_branch-raises now uart_branch event p h = refl
finish_branch-raises now b event p h = absurd (ground arith)

-- The state after an event, or as it was after an exception.
abbrev caught : Result Platform → Platform → Platform
caught r p = elim r [ err e ↦ p | ok p' ↦ p' ]

handle-finish :
    (now : ℤ) (event : Record) (p : Platform) (o : Option (ℤ × Record))
    → gpio_update (branch event) event ≡ ok o
    → handle now event p ≡ finish_branch now (branch event) event (apply_update o p)
unfolding handle
handle-finish now event p o u = rw u refl

handle-raises :
    (now : ℤ) (event : Record) (p : Platform) (e : Error)
    → gpio_update (branch event) event ≡ err e
    → handle now event p ≡ err e
unfolding handle
handle-raises now event p e u = rw u refl

newest-nil : (k : String) (old : Option Value) → newest [] k old ≡ old
unfolding newest
newest-nil k old = refl

-- What an event does to a pin's key, for its state after it.
abbrev Writes : ℤ → Record → ℤ → String → Platform → Platform → Type 0
Writes now event gpio k p q =
    (cached q gpio k ≡ newest (update_for gpio event) k (cached p gpio k))
    × (q.has_loop ≡ p.has_loop)

Writes-nothing :
    (now : ℤ) (event : Record) (gpio : ℤ) (k : String) (p : Platform)
    → update_for gpio event ≡ []
    → Writes now event gpio k p p
Writes-nothing now event gpio k p e =
    (sym (ap (λ u. newest u k (cached p gpio k)) e ∙ newest-nil k (cached p gpio k)), refl)

handle-Writes :
    (now : ℤ) (event : Record) (gpio : ℤ) (k : String) (p : Platform)
    → Writes now event gpio k p (caught (handle now event p) p)
handle-Writes now event gpio k p = elim (Result-cases (gpio_update (branch event) event)) [
  | inl (e, u) ↦
      let nothing = Writes-nothing now event gpio k p (ap (λ r. update_of r gpio) u) in
      subst (λ r. Writes now event gpio k p (caught r p)) (sym (handle-raises now event p e u))
        nothing
  | inr (o, u) ↦
      let p' = apply_update o p in
      subst (λ r. Writes now event gpio k p (caught r p)) (sym (handle-finish now event p o u))
        (elim (Result-cases (finish_branch now (branch event) event p')) [
          | inr (q, f) ↦
              subst (λ r. Writes now event gpio k p (caught r p)) (sym f) (finished o u q f)
          | inl (e, f) ↦
              let nothing = finish_branch-raises now (branch event) event p' f in
              subst (λ r. Writes now event gpio k p (caught r p)) (sym f)
                (Writes-nothing now event gpio k p (ap (λ r. update_of r gpio) nothing))
        ])
]
  where
    finished :
        (o : Option (ℤ × Record))
        → gpio_update (branch event) event ≡ ok o
        → (q : Platform) → finish_branch now (branch event) event (apply_update o p) ≡ ok q
        → Writes now event gpio k p q
    finished o u q f =
        let (c, l) = apply_update-cached o gpio k p in
        let (c', l') = finish_branch-caches now (branch event) event (apply_update o p) f in
        (
          ap (λ cache. get (entry_of cache gpio) k) c'
              ∙ c
              ∙ ap (λ r. newest (update_of r gpio) k (cached p gpio k)) (sym u),
          l' ∙ l,
        )

on_bridge_event-looped :
    (now : ℤ) (event : Record) (p : Platform)
    → p.has_loop ≡ true
    → on_bridge_event now event p ≡ handle now event p
unfolding on_bridge_event
on_bridge_event-looped now event p h = ap (λ b. if b then handle now event p else ok p) h

on_bridge_events-step :
    (now : ℤ) (event : Record) (events : List (ℤ × Record)) (p : Platform)
    → p.has_loop ≡ true
    → on_bridge_events ((now, event) ∷ events) p
      ≡ on_bridge_events events (caught (handle now event p) p)
unfolding on_bridge_events
on_bridge_events-step now event events p h =
    ap (λ r. on_bridge_events events (caught r p)) (on_bridge_event-looped now event p h)

-- Once there is an event loop, a pin's cache holds under each key the last value that an event wrote
-- for this pin and key, whatever other events and pins do, or else what it held before.
pub on_bridge_events-latest :
    (events : List (ℤ × Record)) (p : Platform) (gpio : ℤ) (k : String)
    → p.has_loop ≡ true
    → cached (on_bridge_events events p) gpio k ≡ latest events gpio k (cached p gpio k)
unfolding latest
on_bridge_events-latest [] p gpio k h = unfold on_bridge_events in refl
on_bridge_events-latest ((now, event) ∷ events) p gpio k h =
    let p' = caught (handle now event p) p in
    let (c, l) = handle-Writes now event gpio k p in
    ap (λ q. cached q gpio k) (on_bridge_events-step now event events p h)
    ∙ on_bridge_events-latest events p' gpio k (l ∙ h)
    ∙ ap (latest events gpio k) c
