-- ===== src/Platform/Executor/Steps.antt =====
-- `_execute_step` and `execute_command` of platform/src/services/cmd_executor.py.
use Prim.Native.String.{String, ◌++◌ as ◌<>◌}
use text.Mathlib.Text.{◌==◌ as str_eq}
use rose_esp.Prelude.{
  ℕ, zero, suc, Bool, false, Option, none, some, List, [], ◌∷◌, if◌then◌else◌, is_empty,
}
use rose_esp.Prelude.Int.{ℤ, pos, pos_part}
use rose_esp.Prelude.Eq.{string_eq}
use rose_esp.Prelude.Dict.{get, put}
use rose_esp.Prelude.Result.{Result, ok, err, type_error, value_error}
use rose_esp.Struct.{Bytes}
use rose_esp.Client.Resolution.{unset}
use rose_esp.Platform.Service
use rose_esp.Platform.Service.{Service}
use rose_esp.Platform.Executor.{
  Arg, string, null, number, boolean, float, signal, Config, Step, Library, Env, Outcome, ack,
  value, edges, data_base64, delayed_ms, Exec, pure, from, ◌>>=◌, call, required, number_or,
  text_or, float_or, signal_or_empty, resolve_params,
}

-- An entry of the results: the step's number, its type, and what it returned or raised.
pub record StepResult (F : Type 0) : Type 0 where
  pub step : ℕ
  pub step_type : String
  pub result : Result (Outcome F)

module _ {F : Type 0} (lib : Library F) where
  -- The bytes of a "uart_send" step. A "data_base64" that is not a text raises if it is true, as a
  -- float is taken to be.
  unfoldable pub uart_data : Config F → Result Bytes
  uart_data config = decoded (text_or config "data" "") (text_or config "encoding" "utf-8")
    where
      or_base64 : Option (Arg F) → Result Bytes → Result Bytes
      or_base64 none encoded = encoded
      or_base64 (some null) encoded = encoded
      or_base64 (some (boolean false)) encoded = encoded
      or_base64 (some (number (pos zero))) encoded = encoded
      or_base64 (some (signal [])) encoded = encoded
      or_base64 (some (string b)) encoded = if str_eq b "" then encoded else lib.b64decode b
      or_base64 (some _) encoded = err type_error

      decoded : Result String → Result String → Result Bytes
      decoded (err e) encoding = err e
      decoded (ok text) (err e) = err e
      decoded (ok text) (ok encoding) = elim (lib.encode text encoding) [
        | err e ↦ err e
        | ok bytes ↦ or_base64 (get config "data_base64") (ok bytes)
      ]

  abbrev pub encoded_or_empty : Option Bytes → String
  encoded_or_empty none = ""
  encoded_or_empty (some bytes) = if is_empty bytes then "" else lib.b64encode bytes

-- `on_error == "abort"`, after an exception
abbrev pub aborts : {F : Type 0} → Result (Outcome F) → String → Bool
aborts (ok outcome) on_error = false
aborts (err e) on_error = str_eq on_error "abort"

module _ {F : Type 0} (lib : Library F) {C : Type 0} where
  -- `ctx[prefix + str(gpio)] = value`
  unfoldable pub remember : String → ℤ → Option ℤ → Exec F C (Unit {0})
  remember prefix gpio v env = (
    ok tt,
    record env {
      ctx = put env.ctx (prefix <> lib.show gpio) (elim v [ none ↦ null | some n ↦ number n ]);
    },
  )

  unfoldable pub gpio_config_step : Config F → Exec F C (Outcome F)
  gpio_config_step config = do
    gpio ← from (required config "gpio")
    mode ← from (number_or config "mode" (pos 0))
    pull ← from (number_or config "pull" (pos 0))
    edge ← from (number_or config "edge" (pos 0))
    success ← call (Service.gpio_config lib.decode_utf8 gpio mode pull edge)
    pure (ack success)

  unfoldable pub gpio_set_step : Config F → Exec F C (Outcome F)
  gpio_set_step config = do
    gpio ← from (required config "gpio")
    v ← from (required config "value")
    success ← call (Service.gpio_set lib.decode_utf8 gpio v)
    pure (ack success)

  unfoldable pub gpio_get_step : Config F → Exec F C (Outcome F)
  gpio_get_step config = do
    gpio ← from (required config "gpio")
    v ← call (Service.gpio_get lib.decode_utf8 gpio)
    _ ← remember "gpio_" gpio v
    pure (value v)

  unfoldable pub adc_sample_step : Config F → Exec F C (Outcome F)
  adc_sample_step config = do
    gpio ← from (required config "gpio")
    samples ← from (number_or config "samples" (pos 1))
    v ← call (Service.adc_sample lib.decode_utf8 gpio samples)
    _ ← remember "adc_" gpio v
    pure (value v)

  unfoldable pub signal_tx_step : Config F → Exec F C (Outcome F)
  signal_tx_step config = do
    sig ← from (signal_or_empty config "signal")
    gpio ← from (required config "gpio")
    delay_us ← from (number_or config "delay_us" (pos 0))
    carrier_hz ← from (number_or config "carrier_hz" (pos 0))
    duty_cycle ← from (float_or lib config "duty_cycle")
    repeat ← from (number_or config "repeat" (pos 1))
    repeat_gap_us ← from (number_or config "repeat_gap_us" (pos 0))
    success ← call (
        Service.signal_tx lib.decode_utf8 lib.strip_lower lib.pack_float gpio sig delay_us
          carrier_hz duty_cycle repeat repeat_gap_us)
    pure (ack success)

  unfoldable pub signal_rx_step : Config F → Exec F C (Outcome F)
  signal_rx_step config = do
    gpio ← from (required config "gpio")
    timeout_us ← from (number_or config "timeout_us" (pos 1000000))
    max_edges ← from (number_or config "max_edges" (pos 100))
    found ← call (Service.signal_rx lib.decode_utf8 lib.strip_lower gpio timeout_us max_edges unset)
    pure (edges found)

  unfoldable pub signal_exchange_step : Config F → Exec F C (Outcome F)
  signal_exchange_step config = do
    tx ← from (signal_or_empty config "tx_signal")
    gpio ← from (required config "gpio")
    delay_us ← from (number_or config "delay_us" (pos 0))
    rx_total_us ← from (number_or config "rx_total_us" (pos 500000))
    rx_max_edges ← from (number_or config "rx_max_edges" (pos 100))
    carrier_hz ← from (number_or config "carrier_hz" (pos 0))
    duty_cycle ← from (float_or lib config "duty_cycle")
    found ← call (
        Service.signal_exchange lib.decode_utf8 lib.strip_lower lib.pack_float gpio tx delay_us
          rx_total_us rx_max_edges carrier_hz duty_cycle unset)
    pure (edges found)

  unfoldable pub uart_config_step : Config F → Exec F C (Outcome F)
  uart_config_step config = do
    uart_id ← from (required config "uart_id")
    baudrate ← from (required config "baudrate")
    tx_gpio ← from (number_or config "tx_gpio" (pos 1))
    rx_gpio ← from (number_or config "rx_gpio" (pos 3))
    data_bits ← from (number_or config "data_bits" (pos 8))
    parity ← from (number_or config "parity" (pos 0))
    stop_bits ← from (number_or config "stop_bits" (pos 1))
    success ← call (
        Service.uart_config lib.decode_utf8 uart_id baudrate tx_gpio rx_gpio data_bits parity
          stop_bits)
    pure (ack success)

  unfoldable pub uart_send_step : Config F → Exec F C (Outcome F)
  uart_send_step config = do
    bytes ← from (uart_data lib config)
    uart_id ← from (required config "uart_id")
    success ← call (Service.uart_send lib.decode_utf8 uart_id bytes)
    pure (ack success)

  -- A negative `length` is outside the model, which takes it for 0.
  unfoldable pub uart_read_step : Config F → Exec F C (Outcome F)
  uart_read_step config = do
    uart_id ← from (required config "uart_id")
    length_ ← from (number_or config "length" (pos 256))
    found ← call (Service.uart_read lib.decode_utf8 uart_id (pos_part length_))
    pure (data_base64 (encoded_or_empty lib found))

  unfoldable pub port_bind_step : Config F → Exec F C (Outcome F)
  port_bind_step config = do
    resource_type ← from (required config "resource_type")
    id ← from (required config "id")
    owner_id ← from (number_or config "owner_id" (pos 0))
    success ← call (Service.port_bind lib.decode_utf8 resource_type id owner_id)
    pure (ack success)

  unfoldable pub port_unbind_step : Config F → Exec F C (Outcome F)
  port_unbind_step config = do
    resource_type ← from (required config "resource_type")
    id ← from (required config "id")
    success ← call (Service.port_unbind lib.decode_utf8 resource_type id)
    pure (ack success)

  unfoldable pub delay_step : Config F → Exec F C (Outcome F)
  delay_step config = from (slept (get config "ms"))
    where
      slept : Option (Arg F) → Result (Outcome F)
      slept none = ok (delayed_ms (number (pos 100)))
      slept (some (number ms)) = ok (delayed_ms (number ms))
      slept (some (float ms)) = ok (delayed_ms (float ms))
      slept (some (boolean ms)) = ok (delayed_ms (boolean ms))
      slept (some _) = err type_error

  -- `_execute_step`
  unfoldable pub execute_step : String → Config F → Exec F C (Outcome F)
  execute_step step_type config =
      if str_eq step_type "gpio_config"
      then gpio_config_step config
      else if str_eq step_type "gpio_set"
      then gpio_set_step config
      else if str_eq step_type "gpio_get"
      then gpio_get_step config
      else if str_eq step_type "adc_sample"
      then adc_sample_step config
      else if str_eq step_type "signal_tx"
      then signal_tx_step config
      else if str_eq step_type "signal_rx"
      then signal_rx_step config
      else if str_eq step_type "signal_exchange"
      then signal_exchange_step config
      else if str_eq step_type "uart_config"
      then uart_config_step config
      else if str_eq step_type "uart_send"
      then uart_send_step config
      else if str_eq step_type "uart_read"
      then uart_read_step config
      else if str_eq step_type "port_bind"
      then port_bind_step config
      else if str_eq step_type "port_unbind"
      then port_unbind_step config
      else if str_eq step_type "delay"
      then delay_step config
      else from (err value_error)

  -- The results of the loop from step `i` on: a step that fails ends it, if it is to abort.
  unfoldable pub execute_steps :
      ℕ → List (Step F) → Config F → Env F C → List (StepResult F) × Service C
  execute_steps i [] params env = ([], env.service)
  execute_steps i (s ∷ steps) params env =
      let (result, env') =
        execute_step s.step_type (resolve_params lib.strip s.config params env.ctx) env in
      let (results, service) = execute_steps (suc i) steps params env' in
      let entry : StepResult F = record { step = i; step_type = s.step_type; result = result } in
      if aborts result s.on_error then (entry ∷ [], env'.service) else (entry ∷ results, service)

  unfoldable pub execute_command :
      List (Step F) → Config F → Service C → List (StepResult F) × Service C
  execute_command steps params service =
      execute_steps 1 steps params (record { ctx = []; service = service })
