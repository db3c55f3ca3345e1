-- ===== src/Platform/Cache.antt =====
-- `_on_bridge_event` of platform/src/main.py: the caches of the device's state, and the events that
-- are passed on to the web clients. What the event loop is asked to run is a list. An exception
-- leaves the state as it was, since every branch changes it last.
pub mod Latest
use Prim.Native.String.{String}
use text.Mathlib.Text.{◌==◌ as str_eq}
use rose_esp.Prelude.{
  Bool, true, false, ◌&&◌, ◌||◌, Option, none, some, List, [], ◌∷◌, if◌then◌else◌,
}
use rose_esp.Prelude.Int.{ℤ, pos}
use rose_esp.Prelude.Eq.{string_eq, int_eq}
use rose_esp.Prelude.Dict.{Dict, get, put, remove}
use rose_esp.Prelude.Result.{Result, ok, err, ◌>>=◌}
use rose_esp.Platform.Values.{Value, string, Record, get_value, equals}
use rose_esp.Platform.Updates.{
  port_status_update, gpio_status_update, adc_value_update, gpio_value_update, uart_status_entry,
}

-- The module's variables, and what was scheduled, the last first.
pub record Platform : Type 0 where
  pub has_loop : Bool
  pub gpio_cache : Dict ℤ Record
  pub uart_cache : Dict ℤ Record
  pub last_heartbeat_time : ℤ
  pub broadcasts : List Record
  pub remembered : List Record  -- the events given to `_remember_ble_devices`

-- `entry.update(update)`
unfoldable pub merge : Record → Record → Record
merge [] entry = entry
merge ((k, v) ∷ update) entry = merge update (put entry k v)

abbrev pub entry_of : Dict ℤ Record → ℤ → Record
entry_of cache gpio = elim (get cache gpio) [ none ↦ [] | some entry ↦ entry ]

unfoldable pub update_gpio_cache : ℤ → Record → Platform → Platform
update_gpio_cache gpio update p = record p {
  gpio_cache = put p.gpio_cache gpio (merge update (entry_of p.gpio_cache gpio));
}

abbrev pub broadcast : Record → Platform → Platform
broadcast event p = record p { broadcasts = event ∷ p.broadcasts }

-- `{"type": etype, **{k: v for k, v in event.items() if k != "type"}}`
abbrev pub retyped : String → Record → Record
retyped etype event = ("type", string etype) ∷ remove event "type"

-- `event.get("type", "")`
abbrev pub type_of : Record → Value
type_of event = elim (get event "type") [ none ↦ string "" | some v ↦ v ]

abbrev pub is_type : Value → String → Bool
is_type (string t) name = str_eq t name
is_type _ name = false

-- The types of the branch for Bluetooth.
abbrev pub is_ble_type : Value → Bool
is_ble_type etype =
    is_type etype "ble_pairing_enabled"
    || is_type etype "ble_pairing_disabled"
    || is_type etype "ble_in_range_list"
    || is_type etype "ble_device_in_range"
    || is_type etype "ble_device_out_of_range"
    || is_type etype "ble_rssi"

abbrev pub name_of : Value → String
name_of (string t) = t
name_of _ = ""

-- The branch that an event takes.
pub data Branch : Type 0 where
  port_branch gpio_branch adc_branch uart_branch status_branch ble_branch value_branch : Branch
  heartbeat_branch other_branch : Branch

unfoldable pub branch : Record → Branch
branch event =
    let etype = type_of event in
    if is_type etype "port_status" && equals (get_value event "resource_type") (pos 0)
    then port_branch
    else if is_type etype "gpio_status"
    then gpio_branch
    else if is_type etype "adc_value"
    then adc_branch
    else if is_type etype "uart_status"
    then uart_branch
    else if is_type etype "ble_status"
    then status_branch
    else if is_ble_type etype
    then ble_branch
    else if is_type etype "gpio_value"
    then value_branch
    else if is_type etype "heartbeat"
    then heartbeat_branch
    else other_branch

-- `_update_gpio_cache(gpio, update)` for the update of an event, if the event has one.
unfoldable pub gpio_update : Branch → Record → Result (Option (ℤ × Record))
gpio_update port_branch event = port_status_update event >>= λ u. ok (some u)
gpio_update gpio_branch event = gpio_status_update event >>= λ u. ok (some u)
gpio_update adc_branch event = adc_value_update event >>= λ u. ok (some u)
gpio_update value_branch event = gpio_value_update event >>= λ u. ok (some u)
gpio_update _ event = ok none

abbrev pub apply_update : Option (ℤ × Record) → Platform → Platform
apply_update none p = p
apply_update (some (gpio, update)) p = update_gpio_cache gpio update p

-- What a branch does besides. `now` is `time.time()`.
unfoldable pub finish_branch : ℤ → Branch → Record → Platform → Result Platform
finish_branch now port_branch event p = ok p
finish_branch now gpio_branch event p = ok (broadcast (retyped "gpio_status" event) p)
finish_branch now adc_branch event p = ok (broadcast event p)
finish_branch now uart_branch event p = do
  (uart_id, entry) ← uart_status_entry event
  ok (
      broadcast (retyped "uart_status" event)
        (record p { uart_cache = put p.uart_cache uart_id entry }))
finish_branch now status_branch event p = ok (broadcast (retyped "ble_status" event) p)
finish_branch now ble_branch event p =
    let etype = type_of event in
    let remembers = is_type etype "ble_in_range_list" || is_type etype "ble_device_in_range" in
    ok (
      broadcast (retyped (name_of etype) event)
        (record p { remembered = if remembers then event ∷ p.remembered else p.remembered }))
finish_branch now value_branch event p = ok (broadcast event p)
finish_branch now heartbeat_branch event p = ok (record p { last_heartbeat_time = now })
finish_branch now other_branch event p = ok (broadcast event p)

-- The body under `if loop is not None`.
unfoldable pub handle : ℤ → Record → Platform → Result Platform
handle now event p = do
  update ← gpio_update (branch event) event
  finish_branch now (branch event) event (apply_update update p)

unfoldable pub on_bridge_event : ℤ → Record → Platform → Result Platform
on_bridge_event now event p = if p.has_loop then handle now event p else ok p

-- The events that arrive one after the other; an exception of a callback is logged by the
-- bridge's `handle_event`.
unfoldable pub on_bridge_events : List (ℤ × Record) → Platform → Platform
on_bridge_events [] p = p
on_bridge_events ((now, event) ∷ events) p =
    on_bridge_events events (elim (on_bridge_event now event p) [ err e ↦ p | ok p' ↦ p' ])
