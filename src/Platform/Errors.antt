-- ===== src/Platform/Errors.antt =====
-- platform/src/api/errors.py: how a failed command becomes an answer to the web. Only the status
-- of an answer is modelled of its message.
use rose_esp.Prelude.{ℕ, Bool, true, false, Option, none, some, [], ◌∷◌, if◌then◌else◌}
use rose_esp.Prelude.Int.{ℤ, pos}
use rose_esp.Prelude.Eq.{int_eq}
use rose_esp.Prelude.Dict.{Dict, get}
use rose_esp.Platform.Service.{Service, is_connected, get_last_error}

-- What an API function raises: an `HTTPException` with its status, or something else.
pub data Raised : Type 0 where
  http : ℕ → Raised
  unhandled : Raised

pub data Answer {ℓ} (A : Type ℓ) : Type ℓ where
  answer : A → Answer A
  raised : Raised → Answer A

-- `_ERROR_MAP`, without the reasons
unfoldable pub error_map : Dict ℤ ℕ
error_map =
    (pos 1, 409)
    ∷ (pos 2, 502)
    ∷ (pos 3, 502)
    ∷ (pos 4, 409)
    ∷ (pos 5, 501)
    ∷ (pos 6, 404)
    ∷ (pos 7, 503)
    ∷ (pos 8, 409)
    ∷ (pos 9, 409)
    ∷ (pos 10, 502)
    ∷ (pos 255, 502)
    ∷ []

-- The status for the last error.
unfoldable pub status_for : Option ℤ → ℕ
status_for none = 502
status_for (some err_code) = elim (get error_map err_code) [ none ↦ 502 | some status ↦ status ]

module _ {C : Type 0} where
  unfoldable pub check_connected : Service C → Answer (Unit {0})
  check_connected s = if is_connected s then answer tt else raised (http 503)

  -- `check_bridge_ok`, for a result that is `True` or `False`
  unfoldable pub check_bridge_ok : Bool → Service C → Answer (Unit {0})
  check_bridge_ok true s = answer tt
  check_bridge_ok false s = raised (http (status_for (get_last_error s)))

  -- `check_bridge_ok`, for a result that may be `None`
  unfoldable pub check_bridge_some : {A : Type 0} → Option A → Service C → Answer A
  check_bridge_some none s = raised (http (status_for (get_last_error s)))
  check_bridge_some (some a) s = answer a
