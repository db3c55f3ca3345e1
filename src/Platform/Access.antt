-- ===== src/Platform/Access.antt =====
-- Source addresses: platform/src/security.py and `source_allowlist` of platform/src/main.py. The
-- module `ipaddress`, `str.split` and `str.strip` are parameters, and so is the environment. The
-- cache of `networks_for` is left out, since the environment does not change.
use Prim.Native.String.{String}
use text.Mathlib.Text.{◌==◌ as str_eq}
use rose_esp.Prelude.{
  ℕ, ◌==◌, Bool, false, ◌&&◌, ◌||◌, Option, none, some, List, [], ◌∷◌, if◌then◌else◌,
}
use rose_esp.Prelude.Eq.{string_eq}
use rose_esp.Prelude.Dict.{Dict, get}
use rose_esp.Prelude.Result.{Result, ok, err, key_error, ◌>>=◌}

-- What the code uses of `ipaddress` and of Python's texts.
pub record Library (Address : Type 0) (Network : Type 0) : Type 0 where
  pub ip_network : String → Result Network
  pub ip_address : String → Option Address  -- `None` for a `ValueError`
  pub address_version : Address → ℕ
  pub network_version : Network → ℕ
  pub contains : Network → Address → Bool
  pub split_commas : String → List String
  pub strip : String → String

-- The local variable `defaults`.
unfoldable pub defaults : Dict String String
defaults =
    ("ROSE_API_ALLOWLIST", "127.0.0.1/32,::1/128")
    ∷ ("ROSE_CONSOLE_ALLOWLIST", "127.0.0.1/32,::1/128")
    ∷ ("ROSE_DEVICE_ALLOWLIST", "127.0.0.1/32,::1/128")
    ∷ []

module _ {Address Network : Type 0} (lib : Library Address Network)
    (environ : Dict String String) where
  unfoldable pub parse_items : List String → Result (List Network)
  parse_items [] = ok []
  parse_items (item ∷ items) =
      let rest = parse_items items in
      if str_eq (lib.strip item) ""
      then rest
      else lib.ip_network (lib.strip item) >>= λ network.
          rest >>= λ networks. ok (network ∷ networks)

  unfoldable pub parse_networks : String → Result (List Network)
  parse_networks value = parse_items (lib.split_commas value)

  -- `defaults[name]` is computed whether or not the variable is set.
  unfoldable pub networks_for : String → Result (List Network)
  networks_for name = elim (get defaults name) [
    | none ↦ err key_error
    | some by_default ↦
        parse_networks (elim (get environ name) [ none ↦ by_default | some value ↦ value ])
  ]

  -- The `any(…)`.
  unfoldable pub any_contains : List Network → Address → Bool
  any_contains [] client_ip = false
  any_contains (network ∷ networks) client_ip =
      ((lib.address_version client_ip == lib.network_version network)
        && lib.contains network client_ip)
      || any_contains networks client_ip

  unfoldable pub is_allowed : Option String → String → Result Bool
  is_allowed none allowlist_name = ok false
  is_allowed (some address) allowlist_name =
      if str_eq address "" then ok false else elim (lib.ip_address address) [
        | none ↦ ok false
        | some client_ip ↦ do
          networks ← networks_for allowlist_name
          ok (any_contains networks client_ip)
      ]

  module _ (starts_with : String → String → Bool) {Response : Type 0} where
    -- `source_allowlist`: the request's path and the client's address if there is one, the
    -- response of `call_next`, and the one with status 403.
    unfoldable pub source_allowlist : String → Option String → Response → Response → Result Response
    source_allowlist path host passed refused =
        if str_eq path "/healthz" && is_local host
        then ok passed
        else is_allowed host (if is_api then "ROSE_API_ALLOWLIST" else "ROSE_CONSOLE_ALLOWLIST")
          >>= λ allowed. ok (if allowed then passed else refused)
      where
        is_local : Option String → Bool
        is_local none = false
        is_local (some h) = str_eq h "127.0.0.1" || str_eq h "::1"

        is_api : Bool
        is_api = starts_with path "/api/" || starts_with path "/cmd/"
