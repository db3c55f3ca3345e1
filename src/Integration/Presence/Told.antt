-- ===== src/Integration/Presence/Told.antt =====
-- What a listener to the presence events knows.
use Prim.Native.String.{String}
use text.Mathlib.Text.{◌==◌ as str_eq}
use text.Mathlib.TextEquality.{eq_iff}
use rose_esp.Prelude.{
  ◌≡◌, ◌∙◌, ◌⊎◌, inl, inr, refl, ap, sym, Bool, true, false, ◌&&◌, Option, none, some, List, [],
  ◌∷◌, arith, Bool-cases, if◌then◌else◌,
}
use rose_esp.Prelude.Int.{ℤ}
use rose_esp.Prelude.Eq.{string_eq}
use rose_esp.Prelude.Dict.{Dict, put, get-put}
use rose_esp.Integration.Presence.{
  BleState, Presence, Event, connection_change, ble_in_range_list, ble_device_in_range,
  ble_device_out_of_range, ble_rssi, other, RoseCoordinator, home_in, is_key, rssi_of, differs,
  set_ble_state, normalize_mac, set_all, set_one, handle_ble_event, update_data, Data,
}

-- Whether a device is at home by the events, the last first, if it was before them.
abbrev pub told : Bool → List Presence → String → Bool
told before [] mac = before
told before (p ∷ events) mac = if str_eq p.mac mac then p.home else told before events mac

-- The events tell what the coordinator holds.
abbrev IsTold : Bool → String → RoseCoordinator → Type 0
IsTold before mac c = told before c.fired mac ≡ home_in c.current.ble mac

home_in-put :
    (ble : Dict String BleState) (m mac : String) (state : BleState)
    → home_in (put ble m state) mac ≡ (if str_eq m mac then state.home else home_in ble mac)
home_in-put ble m mac state = ground (arith, get-put ble m mac state)

-- What the events tell after one more, if it is fired.
told-if :
    (fires : Bool) (before : Bool) (p : Presence) (events : List Presence) (mac : String)
    → told before (if fires then p ∷ events else events) mac
      ≡ (if fires && str_eq p.mac mac then p.home else told before events mac)
told-if true before p events mac = refl
told-if false before p events mac = refl

-- A state that is set without an event is the one that was.
silent :
    (fire_event home previous : Bool)
    → (fire_event ≡ true) ⊎ (home ≡ previous)
    → (fire_event && differs home previous) ≡ false
    → home ≡ previous
silent fire_event home previous h f = ground arith

set_ble_state-IsTold :
    (m : String) (home : Bool) (rssi : Option ℤ) (fire_event : Bool) (before : Bool) (mac : String)
    (c : RoseCoordinator)
    → (fire_event ≡ true) ⊎ (home ≡ home_in c.current.ble m)
    → IsTold before mac c
    → IsTold before mac (set_ble_state m home rssi fire_event c)
unfolding set_ble_state
set_ble_state-IsTold m home rssi fire_event before mac c h t =
    told-if (fire_event && differs home (home_in c.current.ble m)) before _ c.fired mac
    ∙ same (fire_event && differs home (home_in c.current.ble m)) refl (str_eq m mac) refl
    ∙ sym (home_in-put c.current.ble m mac _)
  where
    same :
        (fires : Bool)
        → (fire_event && differs home (home_in c.current.ble m)) ≡ fires
        → (e : Bool) → str_eq m mac ≡ e
        → (if fires && e then home else told before c.fired mac)
          ≡ (if e then home else home_in c.current.ble mac)
    same true f true e = refl
    same true f false e = t
    same false f false e = t
    same false f true e =
        t
        ∙ ap (home_in c.current.ble) (sym ((eq_iff m mac).0 e))
        ∙ sym (silent fire_event home (home_in c.current.ble m) h f)

set_all-IsTold :
    (macs : List String) (devices : Dict String (Option ℤ)) (before : Bool) (mac : String)
    (c : RoseCoordinator)
    → c.received_ble_snapshot ≡ true
    → IsTold before mac c
    → IsTold before mac (set_all macs devices c)
unfolding set_all
set_all-IsTold [] devices before mac c s t = t
set_all-IsTold (m ∷ macs) devices before mac c s t =
    let rssi = rssi_of devices m in
    set_all-IsTold macs devices before mac
      (set_ble_state m (is_key devices m) rssi c.received_ble_snapshot c)
      (unfold set_ble_state in s)
      (set_ble_state-IsTold m (is_key devices m) rssi c.received_ble_snapshot before mac c (inl s)
        t)

-- Every message but that of a change of the connection.
abbrev IsBle : Event → Type 0
IsBle (connection_change connected) = ⊥
IsBle _ = Unit {0}

-- What a handled message keeps.
abbrev Keeps : Bool → String → RoseCoordinator → Type 0
Keeps before mac c = (c.received_ble_snapshot ≡ true) × IsTold before mac c

set_all-received :
    (macs : List String) (devices : Dict String (Option ℤ)) (c : RoseCoordinator)
    → (set_all macs devices c).received_ble_snapshot ≡ c.received_ble_snapshot
unfolding set_all set_ble_state
set_all-received [] devices c = refl
set_all-received (m ∷ macs) devices c = set_all-received macs devices _

module _ (strip dashes_to_colons lower : String → String) where
  set_one-Keeps :
      (raw : String) (rssi : Option ℤ) (home : Bool → Bool) (fire_event : Bool) (before : Bool)
      (mac : String) (c : RoseCoordinator)
      → ((previous : Bool) → (fire_event ≡ true) ⊎ (home previous ≡ previous))
      → Keeps before mac c
      → Keeps before mac (set_one strip dashes_to_colons lower raw rssi home fire_event c)
  unfolding set_one set_ble_state
  set_one-Keeps raw rssi home fire_event before mac c h (s, t) =
      elim (Bool-cases (str_eq (normalize_mac strip dashes_to_colons lower raw) "")) [
        | inl e ↦ rw (e, if◌then◌else◌) (s, t)
        | inr e ↦
            rw (e, if◌then◌else◌) (s, set_ble_state-IsTold _ _ _ fire_event before mac c (h _) t)
      ]

  handle_ble_event-Keeps :
      (event : Event) (before : Bool) (mac : String) (c : RoseCoordinator)
      → IsBle event
      → Keeps before mac c
      → Keeps before mac (handle_ble_event strip dashes_to_colons lower event c)
  unfolding handle_ble_event
  handle_ble_event-Keeps (connection_change connected) before mac c b k = elim b [ ]
  handle_ble_event-Keeps (ble_in_range_list list) before mac c b (s, t) =
      (refl, set_all-IsTold _ _ before mac c s t)
  handle_ble_event-Keeps (ble_device_in_range m rssi) before mac c b k =
      set_one-Keeps m rssi _ true before mac c (λ previous. inl refl) k
  handle_ble_event-Keeps (ble_device_out_of_range m rssi) before mac c b k =
      set_one-Keeps m rssi _ true before mac c (λ previous. inl refl) k
  handle_ble_event-Keeps (ble_rssi m rssi) before mac c b k =
      set_one-Keeps m rssi _ false before mac c (λ previous. inr refl) k
  handle_ble_event-Keeps other before mac c b k = k

  -- A message that was received, or a refresh with what the client's requests returned.
  pub data Activity : Type 0 where
    message : Event → Activity
    refresh :
        Option Bool → Option (Dict String String) → Option (List (String × Option ℤ)) → Activity

  -- Home Assistant's coordinator takes the data that an update returns, and keeps its own if the
  -- update raises `UpdateFailed`.
  unfoldable pub refreshed : Option Data → RoseCoordinator → RoseCoordinator
  refreshed none c = c
  refreshed (some data_) c = record c { current = data_ }

  unfoldable pub act : Activity → RoseCoordinator → RoseCoordinator
  unfolding refreshed
  act (message event) c = handle_ble_event strip dashes_to_colons lower event c
  act (refresh status names snapshot) c =
      refreshed (update_data strip dashes_to_colons lower status names snapshot c) c

  pub act_all : List Activity → RoseCoordinator → RoseCoordinator
  act_all [] c = c
  act_all (activity ∷ activities) c = act_all activities (act activity c)

  -- A refresh or a change of the connection leaves whether the device is at home as it is; of any
  -- other message nothing is asked.
  abbrev pub IsQuiet : String → Activity → RoseCoordinator → Type 0
  IsQuiet mac (refresh status names snapshot) c =
      home_in (act (refresh status names snapshot) c).current.ble mac ≡ home_in c.current.ble mac
  IsQuiet mac (message (connection_change connected)) c =
      home_in (act (message (connection_change connected)) c).current.ble mac
      ≡ home_in c.current.ble mac
  IsQuiet mac (message event) c = Unit {0}

  unfoldable pub AreQuiet : String → List Activity → RoseCoordinator → Type 0
  AreQuiet mac [] c = Unit {0}
  AreQuiet mac (activity ∷ activities) c =
      IsQuiet mac activity c × AreQuiet mac activities (act activity c)

  refreshed-Keeps :
      (o : Option Data) (before : Bool) (mac : String) (c : RoseCoordinator)
      → home_in (refreshed o c).current.ble mac ≡ home_in c.current.ble mac
      → Keeps before mac c
      → Keeps before mac (refreshed o c)
  unfolding refreshed
  refreshed-Keeps none before mac c q k = k
  refreshed-Keeps (some data_) before mac c q (s, t) = (s, t ∙ sym q)

  act-Keeps :
      (activity : Activity) (before : Bool) (mac : String) (c : RoseCoordinator)
      → IsQuiet mac activity c
      → Keeps before mac c
      → Keeps before mac (act activity c)
  unfolding act
  act-Keeps (refresh status names snapshot) before mac c q k = refreshed-Keeps _ before mac c q k
  act-Keeps (message (connection_change connected)) before mac c q (s, t) =
      unfold handle_ble_event in (s, t ∙ sym q)
  act-Keeps (message (ble_in_range_list list)) before mac c q k =
      handle_ble_event-Keeps (ble_in_range_list list) before mac c tt k
  act-Keeps (message (ble_device_in_range m rssi)) before mac c q k =
      handle_ble_event-Keeps (ble_device_in_range m rssi) before mac c tt k
  act-Keeps (message (ble_device_out_of_range m rssi)) before mac c q k =
      handle_ble_event-Keeps (ble_device_out_of_range m rssi) before mac c tt k
  act-Keeps (message (ble_rssi m rssi)) before mac c q k =
      handle_ble_event-Keeps (ble_rssi m rssi) before mac c tt k
  act-Keeps (message other) before mac c q k = handle_ble_event-Keeps other before mac c tt k

  act_all-Keeps :
      (activities : List Activity) (before : Bool) (mac : String) (c : RoseCoordinator)
      → AreQuiet mac activities c
      → Keeps before mac c
      → Keeps before mac (act_all activities c)
  unfolding act_all AreQuiet
  act_all-Keeps [] before mac c qs k = k
  act_all-Keeps (activity ∷ activities) before mac c (q, qs) k =
      act_all-Keeps activities before mac (act activity c) qs (act-Keeps activity before mac c q k)

  -- Once the first list of devices was received, over any messages, changes of the connection and
  -- refreshes, of which no refresh and no change of the connection alters whether the device is at
  -- home, the presence events tell all: whether it is at home by the last event that was fired for
  -- it, or as it was before them, is what the coordinator holds.
  pub act_all-told :
      (activities : List Activity) (mac : String) (c : RoseCoordinator)
      → c.received_ble_snapshot ≡ true
      → c.fired ≡ []
      → AreQuiet mac activities c
      → let c' = act_all activities c in
        told (home_in c.current.ble mac) c'.fired mac ≡ home_in c'.current.ble mac
  act_all-told activities mac c s f qs =
      (act_all-Keeps activities (home_in c.current.ble mac) mac c qs
        (s, ap (λ fired. told (home_in c.current.ble mac) fired mac) f)).1
