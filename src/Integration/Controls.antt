-- ===== src/Integration/Controls.antt =====
-- The entities that control others: the switches of an air conditioner (switch.py) and the lights
-- (light.py) of custom_components/rose.
use Prim.Native.String.{String}
use text.Mathlib.Text.{◌==◌ as str_eq}
use rose_esp.Prelude.{Bool, true, false, ◌&&◌, ◌||◌, Option, none, some, if◌then◌else◌}
use rose_esp.Prelude.Int.{ℤ, pos}
use rose_esp.Integration.Tcl.{Floats}
use rose_esp.Integration.Climate.{
  Climate, Extra, Extended, HvacMode, is_cool, is_heating, send_extended,
}
use rose_esp.Integration.Requests.{Reply, reply, rose_api_error, other_error}

-- The keys of `SWITCHES`.
pub data ClimateOption : Type 0 where
  econo health turbo light aux_heat sleep : ClimateOption

-- `option in CLIMATE_CAPABILITIES.get(protocol, set())`
unfoldable pub is_supported : String → ClimateOption → Bool
is_supported protocol sleep = false
is_supported protocol option = str_eq protocol "tcl"

-- `allowed_modes is None or hvac_mode in allowed_modes`
unfoldable pub is_allowed_in : ClimateOption → HvacMode → Bool
is_allowed_in econo mode = is_cool mode
is_allowed_in turbo mode = is_cool mode || is_heating mode
is_allowed_in aux_heat mode = is_heating mode
is_allowed_in option mode = true

-- `extra_state_attributes.get(option)`
unfoldable pub option_of : ClimateOption → Extra → Bool
option_of econo e = e.econo
option_of health e = e.health
option_of turbo e = e.turbo
option_of light e = e.light
option_of aux_heat e = e.aux_heat
option_of sleep e = false

-- `{option: enabled}`; an option that is not supported is never set.
unfoldable pub extended_of : ClimateOption → Bool → Extended
extended_of option enabled = record {
  econo = given is_econo;
  health = given is_health;
  turbo = given is_turbo;
  light = given is_light;
  timer_minutes = none;
  aux_heat = given is_aux_heat;
}
  where
    given : (ClimateOption → Bool) → Option Bool
    given test = if test option then some enabled else none

    is_econo : ClimateOption → Bool
    is_econo econo = true
    is_econo _ = false

    is_health : ClimateOption → Bool
    is_health health = true
    is_health _ = false

    is_turbo : ClimateOption → Bool
    is_turbo turbo = true
    is_turbo _ = false

    is_light : ClimateOption → Bool
    is_light light = true
    is_light _ = false

    is_aux_heat : ClimateOption → Bool
    is_aux_heat aux_heat = true
    is_aux_heat _ = false

module _ {F : Type 0} where
  unfoldable pub is_on : ClimateOption → Option (Climate F) → Bool
  is_on option none = false
  is_on option (some c) = option_of option c.extra

  unfoldable pub available : String → ClimateOption → Option (Climate F) → Bool
  available protocol option none = false
  available protocol option (some c) =
      is_supported protocol option && is_allowed_in option c.hvac_mode

  -- `_set`, on an air conditioner that is there
  unfoldable pub set_option : Floats F → String → ClimateOption → Bool → Climate F → Climate F
  set_option floats protocol option enabled c =
      if is_supported protocol option
      then send_extended floats (extended_of option enabled) c
      else c

-- A light: what it is configured with, and its state.
pub record UartLight : Type 0 where
  pub uart_id : Option ℤ
  pub on_command : String
  pub off_command : String
  pub is_lit : Bool

-- `async_turn_on` and `async_turn_off`; `uart_send` is the client's, and an exception of it is raised
-- before the state changes.
unfoldable pub turn_light : (ℤ → String → Reply (Unit {0})) → Bool → UartLight → Reply UartLight
turn_light uart_send on l = sent (
    uart_send (elim l.uart_id [ none ↦ pos 1 | some id ↦ id ])
      (if on then l.on_command else l.off_command))
  where
    sent : Reply (Unit {0}) → Reply UartLight
    sent (reply done) = reply (record l { is_lit = on })
    sent rose_api_error = rose_api_error
    sent other_error = other_error

-- `async_added_to_hass`, for the last state if there is one
unfoldable pub restore_light : Option String → UartLight → UartLight
restore_light none l = l
restore_light (some last_state) l = record l { is_lit = str_eq last_state "on" }
