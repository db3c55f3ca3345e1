-- ===== src/Integration/Groups.antt =====
-- The devices of an entry: device_groups.py and const.py of custom_components/rose, and
-- `async_remove_config_entry_device` of its __init__.py. A subentry's data is a record of what is
-- read of it; `title` is `.replace("_", " ").title()`, and `starts_with` is `str.startswith`.
use Prim.Native.String.{String, ◌++◌ as ◌<>◌}
use text.Mathlib.Text.{◌==◌ as str_eq, starts_with}
use rose_esp.Prelude.{
  Bool, true, false, ◌&&◌, ◌||◌, not, Option, none, some, List, [], ◌∷◌, ◌++◌, map, is_empty,
  if◌then◌else◌,
}
use rose_esp.Prelude.Eq.{string_eq}
use rose_esp.Prelude.Dict.{Dict}
use rose_esp.Prelude.Result.{Result, ok, err, key_error, ◌>>=◌}
use rose_esp.Integration.Presence.{BleState, name_in}

pub record Config : Type 0 where
  pub key : Option String
  pub name : Option String
  pub protocol : Option String
  pub ble_devices : List String

pub record Subentry : Type 0 where
  pub subentry_id : String
  pub subentry_type : String
  pub unique_id : Option String
  pub config : Config

-- A specification of a device; its identifier stands beside the domain.
pub record Spec : Type 0 where
  pub subentry_id : String
  pub identifier : String
  pub connection : Option (String × String)
  pub name : String
  pub model : String

-- `CLIMATE_PROTOCOL_NAMES.get(protocol, protocol)`
unfoldable pub climate_protocol_name : Config → String
climate_protocol_name config =
    let protocol : String = elim config.protocol [ none ↦ "tcl" | some protocol ↦ protocol ] in
    if str_eq protocol "tcl" then "TCL TAC09CHSD 112-bit infrared" else protocol

-- What the generator `configured_subentries` yields; a missing key raises and ends it.
unfoldable pub configured_subentries :
    List Subentry → String → List (Result (String × String × Config))
configured_subentries [] subentry_type = []
configured_subentries (s ∷ subentries) subentry_type =
    let rest = configured_subentries subentries subentry_type in
    if str_eq s.subentry_type subentry_type
    then elim s.config.key [
      | none ↦ err key_error ∷ []
      | some key ↦ ok (s.subentry_id, key, s.config) ∷ rest
    ]
    else rest

module _ (title : String → String) where
  -- The device of an air conditioner or a light.
  unfoldable pub keyed_spec : String → String → Subentry → Result (List Spec)
  keyed_spec prefix model s = elim s.config.key [
    | none ↦ err key_error
    | some key ↦ ok (
        record {
          subentry_id = s.subentry_id;
          identifier = prefix <> key;
          connection = none;
          name = elim s.config.name [ none ↦ title key | some name ↦ name ];
          model = model;
        }
        ∷ [])
  ]

  unfoldable pub ble_spec : String → Dict String BleState → String → Spec
  ble_spec subentry_id ble_states mac = record {
    subentry_id = subentry_id;
    identifier = "ble_" <> mac;
    connection = some ("bluetooth", mac);
    name = name_in ble_states mac;
    model = "BLE presence device";
  }

  unfoldable pub specs_of : Dict String BleState → Subentry → Result (List Spec)
  specs_of ble_states s =
      if str_eq s.subentry_type "climate"
      then keyed_spec "climate_" (climate_protocol_name s.config) s
      else if str_eq s.subentry_type "light"
      then keyed_spec "light_" "UART light controller" s
      else if str_eq s.subentry_type "ble"
      then ok (map (ble_spec s.subentry_id ble_states) s.config.ble_devices)
      else ok []

  unfoldable pub device_group_specs : List Subentry → Dict String BleState → Result (List Spec)
  device_group_specs [] ble_states = ok []
  device_group_specs (s ∷ subentries) ble_states = specs_of ble_states s >>= λ specs.
      device_group_specs subentries ble_states >>= λ rest. ok (specs ++ rest)

abbrev pub includes : List String → String → Bool
includes [] x = false
includes (y ∷ ys) x = str_eq y x || includes ys x

abbrev pub all_of : (String → Bool) → List String → Bool
all_of test [] = true
all_of test (x ∷ xs) = test x && all_of test xs

-- The identifiers of the domain among a device's.
unfoldable pub rose_identifiers : List (String × String) → List String
rose_identifiers [] = []
rose_identifiers ((domain, identifier) ∷ identifiers) =
    let rest = rose_identifiers identifiers in
    if str_eq domain "rose" then identifier ∷ rest else rest

-- The identifiers beside the domain that the entry still manages.
unfoldable pub managed_identifiers : List Subentry → List String
managed_identifiers [] = "platform" ∷ []
managed_identifiers (s ∷ subentries) =
    let rest = managed_identifiers subentries in
    let macs =
      if str_eq s.subentry_type "ble"
      then map (λ mac. "ble_" <> mac) s.config.ble_devices
      else [] in
    elim s.unique_id [ none ↦ macs ++ rest | some identifier ↦ identifier ∷ (macs ++ rest) ]

-- Whether a device may be removed.
unfoldable pub remove_config_entry_device : List Subentry → List (String × String) → Bool
remove_config_entry_device subentries identifiers =
    let ours = rose_identifiers identifiers in
    not (is_empty ours)
    && (all_of (λ i. not (includes (managed_identifiers subentries) i)) ours
        && all_of (λ i. starts_with i "ble_") ours)
