-- ===== src/Platform/Sockets/Registry.antt =====
-- Which commands a WebSocket may run: `command_registry`, `allowed_by_role` and the end of
-- `_handle_ws_command` of platform/src/main.py, and the start of `websocket_endpoint`.
use Prim.Native.String.{String}
use text.Mathlib.Text.{◌==◌ as str_eq}
use rose_esp.Prelude.{ℕ, Bool, true, false, ◌||◌, Option, none, some, [], ◌∷◌, if◌then◌else◌}
use rose_esp.Prelude.Eq.{string_eq}
use rose_esp.Prelude.Dict.{Dict, get}
use rose_esp.Prelude.Result.{Result, ok, err}
use rose_esp.Platform.Service.{Service, Run}
use rose_esp.Platform.Manager.{ConnectionManager, connect, role_of}
use rose_esp.Platform.Sockets.{
  Message, Reply, result, unknown_op, not_allowed, raised, Library, Outcome, cmd_gpio_set,
  cmd_gpio_get, cmd_adc_sample, cmd_signal_tx, cmd_signal_rx, cmd_signal_exchange, cmd_uart_send,
  cmd_thread_passthrough,
}

pub data Permission : Type 0 where
  read control : Permission

-- `permission_class in allowed_by_role.get(role, set())`
unfoldable pub is_permitted : Permission → String → Bool
is_permitted read role = str_eq role "app" || str_eq role "console"
is_permitted control role = str_eq role "console"

-- `role or "app"`
abbrev pub or_app : Option String → String
or_app none = "app"
or_app (some role) = if str_eq role "" then "app" else role

-- The role that a new socket asks for; `strip_lower` is `.strip().lower()`.
unfoldable pub requested_role : (String → String) → Option String → String
requested_role strip_lower query =
    let role = strip_lower (or_app query) in
    if str_eq role "console" || str_eq role "app" then role else "app"

-- `if not is_allowed(…)` and `manager.connect`
abbrev pub admit :
    {M : Type 0} → ℕ → String → ConnectionManager M → Result Bool → Result (ConnectionManager M)
admit ws role m (err e) = err e
admit ws role m (ok true) = ok (connect ws role m)
admit ws role m (ok false) = ok m

-- The start of `websocket_endpoint`: the socket's role, its address allowed or not, and its
-- registration. `allows` is `is_allowed` on the socket's address.
unfoldable pub register :
    {M : Type 0}
    → (String → String)
    → (String → Result Bool)
    → ℕ
    → Option String
    → ConnectionManager M
    → Result (ConnectionManager M)
register strip_lower allows ws query m =
    let role = requested_role strip_lower query in
    admit ws role m
      (allows (if str_eq role "console" then "ROSE_CONSOLE_ALLOWLIST" else "ROSE_API_ALLOWLIST"))

abbrev pub op_of : {F : Type 0} → Message F → String
op_of msg = elim msg.op [ none ↦ "" | some op ↦ op ]

-- `manager.role_of(ws) or "app"`
unfoldable pub role_or_app : {M : Type 0} → ℕ → ConnectionManager M → String
role_or_app ws m = or_app (role_of ws m)

module _ {F : Type 0} (lib : Library F) {C : Type 0} where
  unfoldable pub command_registry : Message F → Dict String (Permission × Run C (Outcome F))
  command_registry msg =
      ("gpio_get", (read, cmd_gpio_get lib msg))
      ∷ ("adc_sample", (read, cmd_adc_sample lib msg))
      ∷ ("signal_tx", (control, cmd_signal_tx lib msg))
      ∷ ("signal_rx", (read, cmd_signal_rx lib msg))
      ∷ ("signal_exchange", (control, cmd_signal_exchange lib msg))
      ∷ ("uart_send", (control, cmd_uart_send lib msg))
      ∷ ("thread_passthrough", (control, cmd_thread_passthrough lib msg))
      ∷ ("gpio_set", (control, cmd_gpio_set lib msg))
      ∷ []

  -- The reply for a handler's result or exception.
  abbrev pub reply_of : Result (Outcome F) × Service C → Reply F × Service C
  reply_of (err e, s) = (raised e, s)
  reply_of (ok (success, d), s) = (result success d, s)

  -- The `try` of `_handle_ws_command`, for what the registry has under the message's `op`.
  unfoldable pub dispatch :
      Option (Permission × Run C (Outcome F)) → String → Service C → Reply F × Service C
  dispatch none role s = (unknown_op, s)
  dispatch (some (permission_class, handler)) role s =
      if is_permitted permission_class role then reply_of (handler s) else (not_allowed, s)

  unfoldable pub handle_ws_command :
      {M : Type 0} → ConnectionManager M → ℕ → Message F → Service C → Reply F × Service C
  handle_ws_command m ws msg = dispatch (get (command_registry msg) (op_of msg)) (role_or_app ws m)
