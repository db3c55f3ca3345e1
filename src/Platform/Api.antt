-- ===== src/Platform/Api.antt =====
-- The web interface: what the endpoints share, and those of platform/src/api/system.py and port.py.
-- An endpoint answers with the `data` of its response, or raises. Pydantic's checks of a request are
-- made before an endpoint is called. The configuration's capabilities are a parameter.
pub mod Gpio
pub mod Signals
pub mod Devices
pub mod Stale
use Prim.Native.String.{String}
use rose_esp.Prelude.{ℕ, Bool, true, false, Option, none, some, List, [], ◌∷◌, if◌then◌else◌}
use rose_esp.Prelude.Int.{ℤ}
use rose_esp.Prelude.Eq.{string_eq}
use rose_esp.Prelude.Dict.{Dict, get}
use rose_esp.Prelude.Result.{Result, ok, err}
use rose_esp.Struct.{Bytes}
use rose_esp.Platform.Values.{Record}
use rose_esp.Platform.Service
use rose_esp.Platform.Service.{Service, Run}
use rose_esp.Platform.Errors.{
  Raised, http, unhandled, Answer, answer, raised, check_connected, check_bridge_ok,
  check_bridge_some,
}

-- The bridge's service, and what the WebSockets' manager was given to broadcast, the last first.
pub record Web (C : Type 0) : Type 0 where
  pub service : Service C
  pub broadcasts : List Record

abbrev pub Api : Type 0 → Type 0 → Type 0
Api C A = Web C → Answer A × Web C

abbrev pub unhandled_if : {A : Type 0} → Result A → Answer A
unhandled_if (err e) = raised unhandled
unhandled_if (ok a) = answer a

module _ {C : Type 0} where
  abbrev pub pure : {A : Type 0} → A → Api C A
  pure a w = (answer a, w)

  abbrev pub fail : {A : Type 0} → ℕ → Api C A
  fail status w = (raised (http status), w)

  abbrev pub bound : {A B : Type 0} → Answer A × Web C → (A → Api C B) → Answer B × Web C
  bound (answer a, w) f = f a w
  bound (raised r, w) f = (raised r, w)

  infixl 5 ◌>>=◌
  abbrev pub ◌>>=◌ : {A B : Type 0} → Api C A → (A → Api C B) → Api C B
  (m >>= f) w = bound (m w) f

  -- `await bridge_service.…`
  abbrev pub call : {A : Type 0} → Run C A → Api C A
  call run w =
      let (result, service) = run w.service in (unhandled_if result, record w { service = service })

  -- `check_connected()`
  abbrev pub connected : Api C (Unit {0})
  connected w = (check_connected w.service, w)

  -- `check_bridge_ok(…)` on `True` or `False`, and on a value or `None`
  abbrev pub ensure : Bool → Api C (Unit {0})
  ensure success w = (check_bridge_ok success w.service, w)

  abbrev pub ensure_some : {A : Type 0} → Option A → Api C A
  ensure_some result w = (check_bridge_some result w.service, w)

  -- A call, and the check of its result.
  abbrev pub done : Run C Bool → Api C (Unit {0})
  done run = call run >>= ensure

  abbrev pub asked : {A : Type 0} → Run C (Option A) → Api C A
  asked run = call run >>= ensure_some

  -- `if not get_capabilities().get(cap, False): raise HTTPException(status_code=501)`
  unfoldable pub check_capability : Dict String Bool → String → Api C (Unit {0})
  check_capability capabilities cap = elim (get capabilities cap) [
    | some true ↦ pure tt
    | _ ↦ fail 501
  ]

  abbrev pub broadcast : Record → Api C (Unit {0})
  broadcast event w = (answer tt, record w { broadcasts = event ∷ w.broadcasts })

  -- An exception is logged, and what was done before it stays done.
  abbrev pub logged : {A : Type 0} → Api C A → Api C (Unit {0})
  logged m w = let (result, w') = m w in (answer tt, w')

  module _ (decode_utf8 : Bytes → String) where
    unfoldable pub get_device_status : Api C Bool
    get_device_status w = (answer (Service.is_connected w.service), w)

    unfoldable pub system_ping : Api C Bool
    system_ping = do _ ← connected; _ ← done (Service.ping decode_utf8); pure true

    unfoldable pub system_heartbeat : ℤ → Api C ℤ
    system_heartbeat timestamp = do _ ← connected; asked (Service.heartbeat decode_utf8 timestamp)

    unfoldable pub system_sync : Api C ℤ
    system_sync = do _ ← connected; asked (Service.sync_request decode_utf8)

    unfoldable pub system_sync_confirm : ℤ → ℤ → Api C ℤ
    system_sync_confirm correlation_id stage = do
      _ ← connected
      _ ← done (Service.sync_confirm decode_utf8 correlation_id stage)
      pure correlation_id

    module _ (capabilities : Dict String Bool) (b64decode : String → Result Bytes) where
      abbrev pub decoded : String → Api C Bytes
      decoded payload = elim (b64decode payload) [ err e ↦ fail 400 | ok bytes ↦ pure bytes ]

      unfoldable pub thread_passthrough : ℤ → String → ℤ → Api C ℤ
      thread_passthrough device_id payload correlation_id = do
        _ ← check_capability capabilities "thread"
        _ ← connected
        payload_bytes ← decoded payload
        _ ← done (Service.thread_passthrough decode_utf8 device_id payload_bytes correlation_id)
        pure device_id

    unfoldable pub port_bind : ℤ → ℤ → ℤ → Api C (ℤ × ℤ)
    port_bind resource_type id owner_id = do
      _ ← connected
      _ ← done (Service.port_bind decode_utf8 resource_type id owner_id)
      pure (resource_type, id)

    unfoldable pub port_unbind : ℤ → ℤ → Api C (ℤ × ℤ)
    port_unbind resource_type id = do
      _ ← connected
      _ ← done (Service.port_unbind decode_utf8 resource_type id)
      pure (resource_type, id)

    unfoldable pub port_status : ℤ → ℤ → Api C Record
    port_status resource_type id = do
      _ ← connected
      asked (Service.port_status decode_utf8 resource_type id)
