-- ===== src/Platform/Sockets/Roles.antt =====
-- What a socket of a business backend can do.
use Prim.Native.String.{String}
use text.Mathlib.Text.{◌==◌ as str_eq}
use rose_esp.Prelude.{ℕ, ◌≡◌, ◌⊎◌, Bool, false, ◌||◌, ◌==◌, Option, none, some, List, [], ◌∷◌}
use rose_esp.Prelude.Eq.{string_eq, nat_eq}
use rose_esp.Prelude.Result.{Result}
use rose_esp.Platform.Service.{Service, Run}
use rose_esp.Platform.Manager.{ConnectionManager, connect, disconnect}
use rose_esp.Platform.Sockets.{Reply, unknown_op, not_allowed, Outcome}
use rose_esp.Platform.Sockets.Registry.{Permission, control, role_or_app}

-- The commands that change nothing on the device's side.
abbrev pub is_read : String → Bool
is_read op = str_eq "gpio_get" op || str_eq "adc_sample" op || str_eq "signal_rx" op

-- Not registered, or a control command.
abbrev IsControl : {F C : Type 0} → Option (Permission × Run C (Outcome F)) → Type 0
IsControl none = Unit {0}
IsControl (some (permission_class, handler)) = permission_class ≡ control

abbrev pub IsRefused : {F : Type 0} → Reply F → Type 0
IsRefused reply = (reply ≡ unknown_op) ⊎ (reply ≡ not_allowed)

-- The socket is not a console's.
abbrev pub IsApp : {M : Type 0} → ℕ → ConnectionManager M → Type 0
IsApp ws m = str_eq (role_or_app ws m) "console" ≡ false

-- What happens to the manager later: another socket comes, or a socket goes.
pub data Change : Type 0 where
  comes : ℕ → String → Change
  goes : ℕ → Change

abbrev pub after : {M : Type 0} → List Change → ConnectionManager M → ConnectionManager M
after [] m = m
after (comes ws role ∷ changes) m = after changes (connect ws role m)
after (goes ws ∷ changes) m = after changes (disconnect ws m)

abbrev pub IsOther : ℕ → Change → Type 0
IsOther ws (comes other role) = (other == ws) ≡ false
IsOther ws (goes other) = Unit {0}
