-- ===== src/Platform/Api/Gpio.antt =====
-- The endpoints of platform/src/api/gpio.py. The configuration's pins are a parameter, and so is the
-- voltage for a reading, a float; `now` is the time in microseconds.
use Prim.Native.String.{String}
use rose_esp.Prelude.{Bool, Option, none, some, List, [], ◌∷◌, if◌then◌else◌}
use rose_esp.Prelude.Int.{ℤ, pos, eqb_ℤ}
use rose_esp.Prelude.Dict.{Dict}
use rose_esp.Struct.{Bytes}
use rose_esp.Platform.Values.{Value, null, number, string, Record, get_value}
use rose_esp.Platform.Service
use rose_esp.Platform.Api.{
  Api, pure, fail, ◌>>=◌, call, connected, done, asked, check_capability, broadcast, logged,
}

-- An entry of the configuration's "pins".
pub record Pin : Type 0 where
  pub gpio : ℤ
  pub reserved : Bool

-- `value if value is not None else default`
abbrev pub or_default : Value → Value → Value
or_default null default = default
or_default v default = v

-- `1 if value else 0`, and `value or 0`
abbrev pub truth : Value → ℤ
truth (number n) = if eqb_ℤ n (pos 0) then pos 0 else pos 1
truth _ = pos 0

abbrev pub or_zero : Value → Value
or_zero null = number (pos 0)
or_zero v = v

-- The event that is broadcast for a pin's status, or without one.
unfoldable pub gpio_status_event : ℤ → Option ℤ → ℤ → ℤ → ℤ → Option Record → Record
gpio_status_event now fallback_mode fallback_pull fallback_edge gpio none =
    ("type", string "gpio_status")
    ∷ ("gpio", number gpio)
    ∷ ("mode", number (elim fallback_mode [ none ↦ pos 0 | some mode ↦ mode ]))
    ∷ ("pull", number fallback_pull)
    ∷ ("edge", number fallback_edge)
    ∷ ("value", null)
    ∷ ("in_use", number (pos 1))
    ∷ ("owner", number (pos 0))
    ∷ ("adc_raw", null)
    ∷ ("adc_mv", null)
    ∷ ("timestamp_us", number now)
    ∷ []
gpio_status_event now fallback_mode fallback_pull fallback_edge gpio (some status) =
    ("type", string "gpio_status")
    ∷ ("gpio", number gpio)
    ∷ (
      "mode",
      or_default (get_value status "mode")
          (number (elim fallback_mode [ none ↦ pos 0 | some mode ↦ mode ])),
    )
    ∷ ("pull", or_default (get_value status "pull") (number fallback_pull))
    ∷ ("edge", or_default (get_value status "edge") (number fallback_edge))
    ∷ ("value", get_value status "value")
    ∷ ("in_use", number (truth (get_value status "in_use")))
    ∷ ("owner", or_zero (get_value status "owner"))
    ∷ ("adc_raw", get_value status "adc_raw")
    ∷ ("adc_mv", get_value status "adc_mv")
    ∷ ("timestamp_us", number now)
    ∷ []

-- `{"type": "gpio_value", …}`
abbrev pub gpio_value_event : ℤ → ℤ → ℤ → Record
gpio_value_event now gpio v =
    ("type", string "gpio_value")
    ∷ ("gpio", number gpio)
    ∷ ("value", number v)
    ∷ ("timestamp_us", number now)
    ∷ []

module _ {C : Type 0} where
  module _ (decode_utf8 : Bytes → String) where
    unfoldable pub broadcast_gpio_status : ℤ → ℤ → Option ℤ → ℤ → ℤ → Api C (Option Record)
    broadcast_gpio_status now gpio fallback_mode fallback_pull fallback_edge = do
      status ← call (Service.port_status decode_utf8 (pos 0) gpio)
      _ ← broadcast (gpio_status_event now fallback_mode fallback_pull fallback_edge gpio status)
      pure status

  unfoldable pub find_pin : List Pin → ℤ → Api C Pin
  find_pin [] gpio = fail 404
  find_pin (p ∷ pins) gpio =
      let rest = find_pin pins gpio in if eqb_ℤ p.gpio gpio then pure p else rest

  unfoldable pub check_not_reserved : Pin → Api C (Unit {0})
  check_not_reserved pin = if pin.reserved then fail 403 else pure tt

  module _ (decode_utf8 : Bytes → String) (capabilities : Dict String Bool) (now : ℤ) where
    unfoldable pub gpio_config : List Pin → ℤ → ℤ → ℤ → ℤ → Api C (ℤ × ℤ)
    gpio_config pins gpio mode pull edge = do
      _ ← check_capability capabilities "gpio"
      pin ← find_pin pins gpio
      _ ← check_not_reserved pin
      _ ← connected
      _ ← done (Service.gpio_config decode_utf8 gpio mode pull edge)
      _ ← logged (broadcast_gpio_status decode_utf8 now gpio (some mode) pull edge)
      pure (gpio, mode)

    unfoldable pub gpio_set : ℤ → ℤ → Api C (ℤ × ℤ)
    gpio_set gpio v = do
      _ ← check_capability capabilities "gpio"
      _ ← connected
      _ ← done (Service.gpio_set decode_utf8 gpio v)
      _ ← broadcast (gpio_value_event now gpio v)
      _ ← logged (broadcast_gpio_status decode_utf8 now gpio (some (pos 1)) (pos 0) (pos 0))
      pure (gpio, v)

    unfoldable pub gpio_get : ℤ → Api C (ℤ × ℤ)
    gpio_get gpio = do
      _ ← check_capability capabilities "gpio"
      _ ← connected
      v ← asked (Service.gpio_get decode_utf8 gpio)
      _ ← broadcast (gpio_value_event now gpio v)
      pure (gpio, v)

    unfoldable pub gpio_adc : (ℤ → Value) → ℤ → ℤ → Api C (ℤ × ℤ × Value)
    gpio_adc voltage gpio samples = do
      _ ← check_capability capabilities "adc"
      _ ← connected
      v ← asked (Service.adc_sample decode_utf8 gpio samples)
      _ ← broadcast (
          ("type", string "adc_value")
          ∷ ("gpio", number gpio)
          ∷ ("value", number v)
          ∷ ("voltage_mv", voltage v)
          ∷ ("timestamp_us", number now)
          ∷ [])
      pure (gpio, v, voltage v)
