-- ===== src/Platform/Updates.antt =====
-- What the events write into the caches: the `update` of each branch of `_on_bridge_event` in
-- platform/src/main.py.
use Prim.Native.String.{String}
use rose_esp.Prelude.{ℕ, ◌==◌, Bool, ◌&&◌, not, Option, none, some, [], ◌∷◌, ◌++◌, if◌then◌else◌}
use rose_esp.Prelude.Int.{ℤ, pos, pos_part, ltb_ℤ}
use rose_esp.Prelude.Eq.{string_eq, int_eq}
use rose_esp.Prelude.Dict.{get}
use rose_esp.Prelude.Result.{Result, ok, ◌>>=◌}
use rose_esp.Platform.Values.{
  Value, null, flag, string, Record, item, get_value, has, to_number, equals,
}

-- `["INPUT", "OUTPUT", "INTERRUPT", "ADC", "SIGNAL"][n]` for `n` from 0 to 4
abbrev pub mode_name : ℕ → String
mode_name n =
    if n == 0
    then "INPUT"
    else if n == 1
    then "OUTPUT"
    else if n == 2
    then "INTERRUPT"
    else if n == 3
    then "ADC"
    else "SIGNAL"

-- `["NONE", "DOWN", "UP"][n]` for `n` from 0 to 2
abbrev pub pull_name : ℕ → String
pull_name n = if n == 0 then "NONE" else if n == 1 then "DOWN" else "UP"

-- `0 <= n <= top`
abbrev pub within : ℤ → ℕ → Bool
within n top = not (ltb_ℤ n (pos 0)) && not (ltb_ℤ (pos top) n)

-- The entry for a key, if it is to be set.
abbrev pub entry_if : Bool → String → Value → Record
entry_if b key v = if b then (key, v) ∷ [] else []

-- The `update` of a "port_status" event for a pin.
unfoldable pub port_status_update : Record → Result (ℤ × Record)
port_status_update event = do
  id ← item event "id"
  gpio ← to_number id
  mode ← (if has event "mode" then to_number (get_value event "mode") else ok (pos 5))
  ok (
    gpio,
    ("bound", flag (equals (get_value event "in_use") (pos 1)))
          ∷ entry_if (has event "mode") "mode_code" (get_value event "mode")
        ++ entry_if (within mode 4) "mode" (string (mode_name (pos_part mode)))
        ++ entry_if (has event "value") "value" (get_value event "value"),
  )

unfoldable pub gpio_status_update : Record → Result (ℤ × Record)
gpio_status_update event = do
  id ← item event "gpio"
  gpio ← to_number id
  mode_code ← item event "mode"
  mode ← to_number mode_code
  pull_code ← item event "pull"
  pull ← to_number pull_code
  edge ← item event "edge"
  value ← item event "value"
  in_use ← item event "in_use"
  adc ← elim (get_value event "adc_raw") [
    | null ↦ ok []
    | raw ↦ item event "adc_mv" >>= λ mv. ok (("adc_value", raw) ∷ ("adc_voltage_mv", mv) ∷ [])
  ]
  ok (
    gpio,
    ("mode_code", mode_code)
        ∷ ("mode", string (if within mode 4 then mode_name (pos_part mode) else ""))
        ∷ ("pull_code", pull_code)
        ∷ ("pull", string (if within pull 2 then pull_name (pos_part pull) else ""))
        ∷ ("edge", edge)
        ∷ ("value", value)
        ∷ ("bound", flag (equals in_use (pos 1)))
        ∷ adc,
  )

unfoldable pub adc_value_update : Record → Result (ℤ × Record)
adc_value_update event = do
  id ← item event "gpio"
  gpio ← to_number id
  value ← item event "value"
  ok (gpio, ("adc_value", value) ∷ ("adc_voltage_mv", get_value event "voltage_mv") ∷ [])

unfoldable pub gpio_value_update : Record → Result (ℤ × Record)
gpio_value_update event = do
  id ← item event "gpio"
  gpio ← to_number id
  value ← item event "value"
  ok (
    gpio,
    ("value", value) ∷ entry_if (has event "mode_code") "mode_code" (get_value event "mode_code")
        ++ entry_if (has event "mode_code") "mode" (or_text (get event "mode"))
        ++ entry_if (has event "pull_code") "pull_code" (get_value event "pull_code")
        ++ entry_if (has event "edge") "edge" (get_value event "edge"),
  )
  where
    or_text : Option Value → Value
    or_text none = string ""
    or_text (some v) = v

-- `_uart_state_cache[event["uart_id"]] = …`
unfoldable pub uart_status_entry : Record → Result (ℤ × Record)
uart_status_entry event = do
  id ← item event "uart_id"
  uart_id ← to_number id
  in_use ← item event "in_use"
  baudrate ← item event "baudrate"
  tx_gpio ← item event "tx_gpio"
  rx_gpio ← item event "rx_gpio"
  ok (
    uart_id,
    ("uart_id", id)
        ∷ ("bound", flag (equals in_use (pos 1)))
        ∷ ("baudrate", baudrate)
        ∷ ("tx_gpio", tx_gpio)
        ∷ ("rx_gpio", rx_gpio)
        ∷ [],
  )
