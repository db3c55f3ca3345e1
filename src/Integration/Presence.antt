-- ===== src/Integration/Presence.antt =====
-- Which Bluetooth devices are at home: ble_state.py and coordinator.py of custom_components/rose.
-- The coordinator's data that is absent, or has no "ble", is data with an empty one. The iteration
-- over a set is one over a list. `str.strip`, `str.replace` and `str.lower` are parameters.
pub mod Told
use Prim.Native.String.{String}
use text.Mathlib.Text.{◌==◌ as str_eq}
use rose_esp.Prelude.{
  ℕ, suc, ◌*◌, Bool, true, false, ◌&&◌, not, Option, none, some, List, [], ◌∷◌, ◌++◌, map, leb,
  is_empty, if◌then◌else◌,
}
use rose_esp.Prelude.Int.{ℤ}
use rose_esp.Prelude.Eq.{string_eq}
use rose_esp.Prelude.Dict.{Dict, get, put}

pub record BleState : Type 0 where
  pub home : Bool
  pub rssi : Option ℤ
  pub name : String

pub record Data : Type 0 where
  pub connected : Bool
  pub ble : Dict String BleState

-- A `rose_ble_presence` event.
pub record Presence : Type 0 where
  pub name : String
  pub mac : String
  pub home : Bool
  pub rssi : Option ℤ

-- What the platform sends over the WebSocket; an RSSI that is not in the message is none.
pub data Event : Type 0 where
  connection_change : Bool → Event
  ble_in_range_list : List (String × Option ℤ) → Event
  ble_device_in_range ble_device_out_of_range ble_rssi : String → Option ℤ → Event
  other : Event

-- The coordinator, with the events fired, the last first, how often a refresh was requested, and
-- the delays of the reconnections, the last first.
pub record RoseCoordinator : Type 0 where
  pub current : Data
  pub received_ble_snapshot : Bool
  pub fired : List Presence
  pub refreshes : ℕ
  pub delays : List ℕ

abbrev pub ws_reconnect_max_delay : ℕ
ws_reconnect_max_delay = 30

unfoldable pub next_reconnect_delay : ℕ → ℕ
next_reconnect_delay current =
    if leb (current * 2) ws_reconnect_max_delay then current * 2 else ws_reconnect_max_delay

-- `{mac: {**state, "home": False, "rssi": None} …}`
unfoldable pub all_away : Dict String BleState → Dict String BleState
all_away [] = []
all_away ((mac, state) ∷ ble) = (mac, record state { home = false; rssi = none }) ∷ all_away ble

unfoldable pub connection_changed : Data → Bool → Data
connection_changed d connected = record {
  connected = connected;
  ble = if connected then d.ble else all_away d.ble;
}

abbrev pub home_in : Dict String BleState → String → Bool
home_in ble mac = elim (get ble mac) [ none ↦ false | some state ↦ state.home ]

abbrev pub rssi_in : Dict String BleState → String → Option ℤ
rssi_in ble mac = elim (get ble mac) [ none ↦ none | some state ↦ state.rssi ]

abbrev pub name_in : Dict String BleState → String → String
name_in ble mac = elim (get ble mac) [ none ↦ mac | some state ↦ state.name ]

-- `home != previous_home`
abbrev pub differs : Bool → Bool → Bool
differs true b = not b
differs false b = b

unfoldable pub set_ble_state : String → Bool → Option ℤ → Bool → RoseCoordinator → RoseCoordinator
set_ble_state mac home rssi fire_event c =
    let previous_home = home_in c.current.ble mac in
    let name = name_in c.current.ble mac in
    record c {
      current = record c.current {
        ble = put c.current.ble mac (record { home = home; rssi = rssi; name = name });
      };
      fired =
          if fire_event && differs home previous_home
          then record { name = name; mac = mac; home = home; rssi = rssi } ∷ c.fired
          else c.fired;
    }

abbrev pub is_key : {V : Type 0} → Dict String V → String → Bool
is_key d k = elim (get d k) [ none ↦ false | some v ↦ true ]

-- `devices.get(mac, {}).get("rssi")`
abbrev pub rssi_of : Dict String (Option ℤ) → String → Option ℤ
rssi_of devices mac = elim (get devices mac) [ none ↦ none | some rssi ↦ rssi ]

abbrev pub keys : {V : Type 0} → Dict String V → List String
keys d = map (λ entry. entry.0) d

-- `… or default`, for a text
abbrev pub or_text : Option String → String → String
or_text none default = default
or_text (some text) default = if str_eq text "" then default else text

-- The loop of `merge_ble_devices`.
unfoldable pub merge_loop :
    List String
    → Dict String String
    → Dict String (Option ℤ)
    → Dict String BleState
    → Dict String BleState
merge_loop [] names devices ble = ble
merge_loop (mac ∷ macs) names devices ble = merge_loop macs names devices (
    put ble mac (record {
      home = is_key devices mac;
      rssi = rssi_of devices mac;
      name = or_text (get names mac) (or_text (some (name_in ble mac)) mac);
    }))

-- The loop over `known_macs`; the second visit of a key changes nothing and fires nothing.
unfoldable pub set_all : List String → Dict String (Option ℤ) → RoseCoordinator → RoseCoordinator
set_all [] devices c = c
set_all (mac ∷ macs) devices c =
    set_all macs devices
      (set_ble_state mac (is_key devices mac) (rssi_of devices mac) c.received_ble_snapshot c)

-- `event.get("rssi", previous.get("rssi"))`
abbrev pub rssi_or : Option ℤ → Option ℤ → Option ℤ
rssi_or none previous = previous
rssi_or (some n) previous = some n

module _ (strip dashes_to_colons lower : String → String) where
  unfoldable pub normalize_mac : String → String
  normalize_mac value = lower (dashes_to_colons (strip value))

  -- A comprehension `{normalize_mac(mac): value …}`.
  unfoldable pub normalized : {V : Type 0} → List (String × V) → Dict String V → Dict String V
  normalized [] d = d
  normalized ((mac, v) ∷ entries) d = normalized entries (put d (normalize_mac mac) v)

  unfoldable pub merge_ble_devices :
      Dict String BleState → Dict String String → List (String × Option ℤ) → Dict String BleState
  merge_ble_devices previous names snapshot =
      let devices = normalized (with_mac snapshot) [] in
      let ble = normalized previous [] in
      let normalized_names = normalized names [] in
      merge_loop (keys ble ++ (keys normalized_names ++ keys devices)) normalized_names devices ble
    where
      with_mac : List (String × Option ℤ) → List (String × Option ℤ)
      with_mac [] = []
      with_mac ((mac, rssi) ∷ snapshot) =
          let rest = with_mac snapshot in if str_eq mac "" then rest else (mac, rssi) ∷ rest

  -- `_async_update_data`, for what the client's three requests return, none where `RoseApiError` is
  -- raised; without a status, `UpdateFailed` is raised.
  unfoldable pub update_data :
      Option Bool
      → Option (Dict String String)
      → Option (List (String × Option ℤ))
      → RoseCoordinator
      → Option Data
  update_data none names snapshot c = none
  update_data (some connected) names snapshot c = some (record {
    connected = connected;
    ble = merge_ble_devices c.current.ble (or_nil names) (or_nil snapshot);
  })
    where
      or_nil : {A : Type 0} → Option (List A) → List A
      or_nil none = []
      or_nil (some list) = list

  -- The end of `_handle_ble_event`; `home` is for the state before it.
  unfoldable pub set_one :
      String → Option ℤ → (Bool → Bool) → Bool → RoseCoordinator → RoseCoordinator
  set_one raw rssi home fire_event c =
      let mac = normalize_mac raw in
      let ble = c.current.ble in
      if str_eq mac ""
      then c
      else set_ble_state mac (home (home_in ble mac)) (rssi_or rssi (rssi_in ble mac)) fire_event c

  unfoldable pub handle_ble_event : Event → RoseCoordinator → RoseCoordinator
  handle_ble_event (connection_change connected) c = record c {
    current = connection_changed c.current connected;
    refreshes = suc c.refreshes;
  }
  handle_ble_event (ble_in_range_list list) c =
      let devices = normalized list [] in
      let known_macs = keys c.current.ble ++ keys devices in
      record (set_all known_macs devices c) { received_ble_snapshot = true }
  handle_ble_event (ble_device_in_range mac rssi) c = set_one mac rssi (λ previous. true) true c
  handle_ble_event (ble_device_out_of_range mac rssi) c =
      set_one mac rssi (λ previous. false) true c
  handle_ble_event (ble_rssi mac rssi) c = set_one mac rssi (λ previous. previous) false c
  handle_ble_event other c = c

  unfoldable pub handle_all : List Event → RoseCoordinator → RoseCoordinator
  handle_all [] c = c
  handle_all (event ∷ events) c = handle_all events (handle_ble_event event c)

  -- A turn of `_websocket_loop`: the messages of one connection, and the delay before and after it.
  unfoldable pub websocket_turn : List Event → RoseCoordinator × ℕ → RoseCoordinator × ℕ
  websocket_turn events (c, reconnect_delay) =
      let c' = handle_all events c in
      let delay = if is_empty events then reconnect_delay else 1 in
      (
        record c' { refreshes = suc c'.refreshes; delays = delay ∷ c'.delays },
        next_reconnect_delay delay,
      )
