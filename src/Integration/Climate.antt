-- ===== src/Integration/Climate.antt =====
-- `RoseTclClimate` of custom_components/rose/climate.py: the state of the entity and its commands.
-- Modes are enumerated, since Home Assistant passes on only those that the entity announces.
-- The signals that were sent are a part of the state; an answer of the platform changes nothing.
pub mod Coherence
use Prim.Native.Nat.{min}
use rose_esp.Prelude.{
  ℕ, Bool, true, false, not, ◌&&◌, ◌||◌, Option, none, some, List, [], ◌∷◌, ltb, if◌then◌else◌,
}
use rose_esp.Prelude.Int.{ℤ, pos, pos_part}
use rose_esp.Integration.Tcl.{
  TclPowerState, off, on, TclHvacMode, auto, cool, heat, dry, fan_only, TclFanMode, auto_fan,
  Floats, clamped, TclState, is_heat, encode_tcl_ir_signal,
}

pub data HvacMode : Type 0 where
  hvac_off : HvacMode
  active : TclHvacMode → HvacMode

pub data SwingMode : Type 0 where
  no_swing vertical horizontal both : SwingMode

-- `_extra`
pub record Extra : Type 0 where
  pub econo : Bool
  pub health : Bool
  pub turbo : Bool
  pub light : Bool
  pub timer_minutes : ℤ
  pub aux_heat : Bool

pub record Climate (F : Type 0) : Type 0 where
  pub hvac_mode : HvacMode
  pub last_active_mode : TclHvacMode
  pub target_temperature : F
  pub fan_mode : TclFanMode
  pub swing_mode : SwingMode
  pub extra : Extra
  pub sent : List (List (ℕ × ℕ))  -- the signals sent, the last first

-- What `async_send_extended` is called with; a key that is absent or `None` is `none`.
pub record Extended : Type 0 where
  pub econo : Option Bool
  pub health : Option Bool
  pub turbo : Option Bool
  pub light : Option Bool
  pub timer_minutes : Option ℤ
  pub aux_heat : Option Bool

-- The stored state, of which a value that does not fit is `none`.
pub record Stored (F : Type 0) : Type 0 where
  pub state : Option HvacMode
  pub last_active_mode : Option TclHvacMode
  pub temperature : Option F
  pub fan_mode : Option TclFanMode
  pub swing_mode : Option SwingMode
  pub extended : Extended

abbrev pub or_else {ℓ} : {A : Type ℓ} → Option A → A → A
or_else none a = a
or_else (some b) a = b

abbrev pub is_true : Option Bool → Bool
is_true none = false
is_true (some b) = b

abbrev pub is_cool : HvacMode → Bool
is_cool (active cool) = true
is_cool _ = false

abbrev pub is_heating : HvacMode → Bool
is_heating (active heat) = true
is_heating _ = false

abbrev pub is_off : HvacMode → Bool
is_off hvac_off = true
is_off (active mode) = false

-- The tests on the swing mode in `_send`.
abbrev pub swings_vertical : SwingMode → Bool
swings_vertical vertical = true
swings_vertical both = true
swings_vertical _ = false

abbrev pub swings_horizontal : SwingMode → Bool
swings_horizontal horizontal = true
swings_horizontal both = true
swings_horizontal _ = false

-- The first three statements of `_send`.
unfoldable pub restrict : HvacMode → Extra → Extra
restrict mode e = record e {
  aux_heat = e.aux_heat && is_heating mode;
  econo = e.econo && is_cool mode;
  turbo = e.turbo && (is_cool mode || is_heating mode);
}

abbrev pub active_mode : HvacMode → TclHvacMode → TclHvacMode
active_mode hvac_off last = last
active_mode (active mode) last = mode

-- `values["econo"] = False` after `turbo is True`, and the other way round.
unfoldable pub exclusive : Extended → Extended
exclusive values =
    if is_true values.turbo
    then record values { econo = some false }
    else if is_true values.econo
    then record values { turbo = some false }
    else values

unfoldable pub update : Extended → Extra → Extra
update values e = record {
  econo = or_else values.econo e.econo;
  health = or_else values.health e.health;
  turbo = or_else values.turbo e.turbo;
  light = or_else values.light e.light;
  timer_minutes = or_else values.timer_minutes e.timer_minutes;
  aux_heat = or_else values.aux_heat e.aux_heat;
}

abbrev pub defaults : Extra
defaults = record {
  econo = false;
  health = false;
  turbo = false;
  light = true;
  timer_minutes = pos 0;
  aux_heat = false;
}

-- `temperature` is `float(config.get("temperature", 26))`.
abbrev pub new : {F : Type 0} → F → Climate F
new temperature = record {
  hvac_mode = hvac_off;
  last_active_mode = cool;
  target_temperature = temperature;
  fan_mode = auto_fan;
  swing_mode = vertical;
  extra = defaults;
  sent = [];
}

-- `min(1440, max(0, int(value)))`
abbrev pub clamped_timer : Option ℤ → Option ℤ
clamped_timer none = none
clamped_timer (some n) = some (pos (min 1440 (pos_part n)))

module _ {F : Type 0} (floats : Floats F) where
  -- The state that `_send` encodes.
  unfoldable pub tcl_state : Climate F → TclState F
  tcl_state c = record {
    power = if is_off c.hvac_mode then off else on;
    mode = active_mode c.hvac_mode c.last_active_mode;
    temperature_c = c.target_temperature;
    fan = c.fan_mode;
    swing_vertical = swings_vertical c.swing_mode;
    swing_horizontal = swings_horizontal c.swing_mode;
    econo = c.extra.econo;
    health = c.extra.health;
    turbo = c.extra.turbo;
    light = c.extra.light;
    timer_minutes = c.extra.timer_minutes;
    aux_heat = c.extra.aux_heat;
  }

  unfoldable pub send : Climate F → Climate F
  send c =
      let c' = record c { extra = restrict c.hvac_mode c.extra } in
      record c' { sent = encode_tcl_ir_signal floats (tcl_state c') ∷ c'.sent }

  unfoldable pub set_hvac_mode : HvacMode → Climate F → Climate F
  set_hvac_mode hvac_off c = send (record c { hvac_mode = hvac_off })
  set_hvac_mode (active mode) c =
      send (record c { hvac_mode = active mode; last_active_mode = mode })

  unfoldable pub set_temperature : F → Climate F → Climate F
  set_temperature temperature c = send (record c {
    target_temperature = temperature;
    hvac_mode = active (active_mode c.hvac_mode c.last_active_mode);
  })

  unfoldable pub set_fan_mode : TclFanMode → Climate F → Climate F
  set_fan_mode mode c = send (record c { fan_mode = mode })

  unfoldable pub set_swing_mode : SwingMode → Climate F → Climate F
  set_swing_mode mode c = send (record c { swing_mode = mode })

  unfoldable pub turn_on : Climate F → Climate F
  turn_on c = set_hvac_mode (active c.last_active_mode) c

  unfoldable pub turn_off : Climate F → Climate F
  turn_off c = set_hvac_mode hvac_off c

  unfoldable pub send_extended : Extended → Climate F → Climate F
  send_extended values c = send (record c { extra = update (exclusive values) c.extra })

-- `async_added_to_hass`, where there is a stored state.
unfoldable pub added_to_hass : {F : Type 0} → Floats F → Stored F → Climate F → Climate F
added_to_hass floats stored c = record c {
  hvac_mode = or_else stored.state c.hvac_mode;
  last_active_mode = or_else stored.last_active_mode c.last_active_mode;
  target_temperature = elim stored.temperature [
    | none ↦ c.target_temperature
    | some t ↦ clamped floats t
  ];
  fan_mode = or_else stored.fan_mode c.fan_mode;
  swing_mode = or_else stored.swing_mode c.swing_mode;
  extra =
      update
        (record stored.extended { timer_minutes = clamped_timer stored.extended.timer_minutes })
        c.extra;
}
