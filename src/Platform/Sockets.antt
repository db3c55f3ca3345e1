-- ===== src/Platform/Sockets.antt =====
-- Commands over a WebSocket: `websocket_endpoint` up to the registration of the socket, and
-- `_handle_ws_command`, of platform/src/main.py. The fields of a message are kept apart by the kind
-- that their readers expect. Pydantic's reading of a signal's request, before its bounds, base 64 and
-- `str.encode` are parameters.
pub mod Registry
pub mod Roles
use Prim.Native.String.{String}
use text.Mathlib.Text.{◌==◌ as str_eq}
use rose_esp.Prelude.{
  ℕ, Bool, true, false, ◌||◌, Option, none, some, List, [], length, if◌then◌else◌,
}
use rose_esp.Prelude.Int.{ℤ, pos}
use rose_esp.Prelude.Eq.{string_eq}
use rose_esp.Prelude.Dict.{Dict, get}
use rose_esp.Prelude.Result.{Error, Result, ok, err, key_error, value_error}
use rose_esp.Struct.{Bytes}
use rose_esp.Server.Connection.Laws.{is_some}
use rose_esp.Client.Resolution.{Edge}
use rose_esp.Platform.Schemas.{
  SignalTxRequest, SignalRxRequest, SignalExchangeRequest, signal_tx_request, signal_rx_request,
  signal_exchange_request,
}
use rose_esp.Platform.Service.{
  Service, Run, gpio_set, gpio_get, adc_sample, signal_tx, signal_rx, signal_exchange, uart_send,
  thread_passthrough,
}
use rose_esp.Platform.Manager.{ConnectionManager, role_of, connect}

pub record Message (F : Type 0) : Type 0 where
  pub op : Option String
  pub numbers : Dict String ℤ
  pub texts : Dict String String
  pub floats : Dict String F

-- The `data` of a reply; `sent` has besides the pin the number of edges and the request's values,
-- `exchanged` the message's carrier and duty cycle.
pub data Data (F : Type 0) : Type 0 where
  empty : Data F
  value : Option ℤ → Data F
  sent : ℤ → ℕ → ℤ → F → ℤ → ℤ → Data F
  captured : ℤ → List Edge → Data F
  exchanged : ℤ → ℤ → F → List Edge → Data F
  written : ℤ → ℕ → Data F
  passed : ℤ → Data F

-- What `ws.send_json` sends: a handler's result, or a failure with its message's cause.
pub data Reply (F : Type 0) : Type 0 where
  result : Bool → Data F → Reply F
  unknown_op : Reply F
  not_allowed : Reply F
  raised : Error → Reply F

-- The library calls of the handlers; a float is abstract.
pub record Library (F : Type 0) : Type 0 where
  pub parse_tx : Message F → Result (SignalTxRequest F)
  pub parse_rx : Message F → Result SignalRxRequest
  pub parse_exchange : Message F → Result (SignalExchangeRequest F)
  pub duty_allowed : F → Bool
  pub b64decode : String → Result Bytes
  pub encode : String → String → Result Bytes
  pub half : F
  pub decode_utf8 : Bytes → String
  pub strip_lower : String → String
  pub pack_float : F → Result Bytes

-- `model_validate`: the reading of the fields, and their bounds.
abbrev pub validated : {A : Type 0} → (A → Bool) → Result A → Result A
validated test (err e) = err e
validated test (ok req) = if test req then ok req else err value_error

-- `msg[key]`, and `msg.get(key, default)`
abbrev pub field : {A : Type 0} → Dict String A → String → Result A
field d key = elim (get d key) [ none ↦ err key_error | some a ↦ ok a ]

abbrev pub field_or : {A : Type 0} → Dict String A → String → A → A
field_or d key default = elim (get d key) [ none ↦ default | some a ↦ a ]

-- `result or []`
abbrev pub or_empty : Option (List Edge) → List Edge
or_empty none = []
or_empty (some edges) = edges

module _ {C : Type 0} where
  -- A step that does not reach the device, or raises.
  abbrev pub from : {A B : Type 0} → Result A → (A → Run C B) → Run C B
  from (err e) next s = (err e, s)
  from (ok a) next s = next a s

  abbrev pub replied : {A B : Type 0} → (A → B) → Result A × Service C → Result B × Service C
  replied reply (err e, s) = (err e, s)
  replied reply (ok a, s) = (ok (reply a), s)

  -- The reply, for what the call of the bridge returns.
  abbrev pub then_reply : {A B : Type 0} → Run C A → (A → B) → Run C B
  then_reply call reply s = replied reply (call s)

-- `(success, data)`, of the dict that a handler returns.
abbrev pub Outcome : Type 0 → Type 0
Outcome F = Bool × Data F

module _ {F : Type 0} (lib : Library F) (msg : Message F) where
  -- The bytes that `_cmd_uart_send` sends.
  unfoldable pub uart_data : Result Bytes
  uart_data =
      if str_eq (field_or msg.texts "data_base64" "") ""
      then elim (get msg.texts "data") [
        | none ↦ err value_error
        | some text ↦ lib.encode text (field_or msg.texts "encoding" "utf-8")
      ]
      else lib.b64decode (field_or msg.texts "data_base64" "")

  -- Whatever the decoding raises becomes a `ValueError`, as does a missing payload.
  abbrev pub payload_bytes : Result Bytes
  payload_bytes = elim (get msg.texts "payload") [
    | none ↦ err value_error
    | some payload ↦ elim (lib.b64decode payload) [ err e ↦ err value_error | ok bytes ↦ ok bytes ]
  ]

module _ {F : Type 0} (lib : Library F) {C : Type 0} (msg : Message F) where
  unfoldable pub cmd_gpio_set : Run C (Outcome F)
  cmd_gpio_set = from (field msg.numbers "gpio") (λ gpio.
      from (field msg.numbers "value")
        (λ v. then_reply (gpio_set lib.decode_utf8 gpio v) (λ success. (success, empty))))

  unfoldable pub cmd_gpio_get : Run C (Outcome F)
  cmd_gpio_get =
      from (field msg.numbers "gpio")
        (λ gpio. then_reply (gpio_get lib.decode_utf8 gpio) (λ val. (is_some val, value val)))

  unfoldable pub cmd_adc_sample : Run C (Outcome F)
  cmd_adc_sample = from (field msg.numbers "gpio") (λ gpio.
      then_reply (adc_sample lib.decode_utf8 gpio (field_or msg.numbers "samples" (pos 1)))
        (λ val. (is_some val, value val)))

  unfoldable pub cmd_signal_tx : Run C (Outcome F)
  cmd_signal_tx = from (validated (signal_tx_request lib.duty_allowed) (lib.parse_tx msg)) (λ req.
      from (field msg.numbers "gpio") (λ gpio.
        then_reply
          (signal_tx lib.decode_utf8 lib.strip_lower lib.pack_float gpio req.signal req.delay_us
            req.carrier_hz req.duty_cycle req.repeat req.repeat_gap_us)
          (λ success. (
            success,
            sent gpio (length req.signal) req.carrier_hz req.duty_cycle req.repeat
                req.repeat_gap_us,
          ))))

  unfoldable pub cmd_signal_rx : Run C (Outcome F)
  cmd_signal_rx = from (validated signal_rx_request (lib.parse_rx msg)) (λ req.
      from (field msg.numbers "gpio") (λ gpio.
        then_reply
          (signal_rx lib.decode_utf8 lib.strip_lower gpio req.timeout_us req.max_edges
            req.resolution)
          (λ edges. (is_some edges, captured gpio (or_empty edges)))))

  unfoldable pub cmd_signal_exchange : Run C (Outcome F)
  cmd_signal_exchange =
      from (validated (signal_exchange_request lib.duty_allowed) (lib.parse_exchange msg)) (λ req.
        from (field msg.numbers "gpio") (λ gpio.
          then_reply
            (signal_exchange lib.decode_utf8 lib.strip_lower lib.pack_float gpio req.tx_signal
              req.delay_us req.rx_total_us req.rx_max_edges req.carrier_hz req.duty_cycle
              req.resolution)
            (λ edges. (
              is_some edges,
              exchanged gpio (field_or msg.numbers "carrier_hz" (pos 0))
                  (field_or msg.floats "duty_cycle" lib.half) (or_empty edges),
            ))))

  unfoldable pub cmd_uart_send : Run C (Outcome F)
  cmd_uart_send = from (uart_data lib msg) (λ bytes. from (field msg.numbers "uart_id") (λ uart_id.
      then_reply (uart_send lib.decode_utf8 uart_id bytes)
        (λ success. (success, written uart_id (length bytes)))))

  unfoldable pub cmd_thread_passthrough : Run C (Outcome F)
  cmd_thread_passthrough = from (payload_bytes lib msg) (λ payload.
      from (field msg.numbers "device_id") (λ device_id.
        then_reply
          (thread_passthrough lib.decode_utf8 device_id payload
            (field_or msg.numbers "correlation_id" (pos 0)))
          (λ success. (success, passed device_id))))
