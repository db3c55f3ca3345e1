-- ===== src/Platform/Executor.antt =====
-- The steps of a custom command: platform/src/services/cmd_executor.py. A value of the wrong kind
-- raises where a step reads it; the source raises at the latest when the command is packed, before
-- anything is sent. The delays are left out. Base 64, `str.encode`, `str.strip` and the text of a
-- number are parameters, and a float is abstract.
pub mod Steps
pub mod Traces
use Prim.Native.String.{String, slice, len}
use text.Mathlib.Text.{◌==◌ as str_eq, starts_with}
use rose_esp.Prelude.{
  ℕ, suc, ◌-◌, Bool, true, false, ◌&&◌, Option, none, some, List, [], ◌∷◌, if◌then◌else◌,
}
use rose_esp.Prelude.Int.{ℤ, pos}
use rose_esp.Prelude.Eq.{string_eq}
use rose_esp.Prelude.Dict.{Dict, get}
use rose_esp.Prelude.Result.{Result, ok, err, key_error, type_error}
use rose_esp.Struct.{Bytes}
use rose_esp.Client.Resolution.{Edge}
use rose_esp.Platform.Service.{Service, Run}

-- A value of a configuration, of the parameters or of the shared context.
pub data Arg (F : Type 0) : Type 0 where
  null : Arg F
  boolean : Bool → Arg F
  number : ℤ → Arg F
  float : F → Arg F
  string : String → Arg F
  signal : List Edge → Arg F

abbrev pub Config : Type 0 → Type 0
Config F = Dict String (Arg F)

pub record Step (F : Type 0) : Type 0 where
  pub step_type : String
  pub config : Config F
  pub on_error : String

-- The library calls of the executor.
pub record Library (F : Type 0) : Type 0 where
  pub strip : String → String
  pub show : ℤ → String
  pub b64encode : Bytes → String
  pub b64decode : String → Result Bytes
  pub encode : String → String → Result Bytes
  pub half : F
  pub float_of : ℤ → F
  pub decode_utf8 : Bytes → String
  pub strip_lower : String → String
  pub pack_float : F → Result Bytes

-- The shared context `ctx`, and the bridge's service.
pub record Env (F C : Type 0) : Type 0 where
  pub ctx : Config F
  pub service : Service C

-- What a step returns.
pub data Outcome (F : Type 0) : Type 0 where
  ack : Bool → Outcome F
  value : Option ℤ → Outcome F
  edges : Option (List Edge) → Outcome F
  data_base64 : String → Outcome F
  delayed_ms : Arg F → Outcome F

abbrev pub Exec : Type 0 → Type 0 → Type 0 → Type 0
Exec F C A = Env F C → Result A × Env F C

-- `v.endswith(suffix)`
abbrev pub ends_with : String → String → Bool
ends_with v suffix = str_eq (slice v (len v - len suffix) (len v)) suffix

module _ {F C : Type 0} where
  abbrev pub pure : {A : Type 0} → A → Exec F C A
  pure a env = (ok a, env)

  abbrev pub from : {A : Type 0} → Result A → Exec F C A
  from result env = (result, env)

  abbrev pub bound : {A B : Type 0} → Result A × Env F C → (A → Exec F C B) → Result B × Env F C
  bound (ok a, env) f = f a env
  bound (err e, env) f = (err e, env)

  infixl 5 ◌>>=◌
  abbrev pub ◌>>=◌ : {A B : Type 0} → Exec F C A → (A → Exec F C B) → Exec F C B
  (m >>= f) env = bound (m env) f

  abbrev pub call : {A : Type 0} → Run C A → Exec F C A
  call run env =
      let (result, service) = run env.service in (result, record env { service = service })

module _ {F : Type 0} where
  -- A `bool` is an `int`: False is 0 and True is 1.
  abbrev pub number_of : Arg F → Result ℤ
  number_of (number n) = ok n
  number_of (boolean b) = ok (if b then pos 1 else pos 0)
  number_of _ = err type_error

  -- `config[key]` and `config.get(key, default)`, for a number
  abbrev pub required : Config F → String → Result ℤ
  required config key = elim (get config key) [ none ↦ err key_error | some v ↦ number_of v ]

  abbrev pub number_or : Config F → String → ℤ → Result ℤ
  number_or config key default = elim (get config key) [ none ↦ ok default | some v ↦ number_of v ]

  -- `config.get(key, default)`, for a text, a float and a signal
  abbrev pub text_or : Config F → String → String → Result String
  text_or config key default = text_of (get config key)
    where
      text_of : Option (Arg F) → Result String
      text_of none = ok default
      text_of (some (string s)) = ok s
      text_of (some _) = err type_error

  -- The default is a half; an `int` is packed as the float of its value.
  abbrev pub float_or : Library F → Config F → String → Result F
  float_or lib config key = float_from (get config key)
    where
      float_from : Option (Arg F) → Result F
      float_from none = ok lib.half
      float_from (some (float x)) = ok x
      float_from (some (number n)) = ok (lib.float_of n)
      float_from (some (boolean b)) = ok (lib.float_of (if b then pos 1 else pos 0))
      float_from (some _) = err type_error

  abbrev pub signal_or_empty : Config F → String → Result (List Edge)
  signal_or_empty config key = signal_of (get config key)
    where
      signal_of : Option (Arg F) → Result (List Edge)
      signal_of none = ok []
      signal_of (some (signal list)) = ok list
      signal_of (some _) = err type_error

  abbrev pub or_else : Option (Arg F) → Arg F → Arg F
  or_else none v = v
  or_else (some w) v = w

  module _ (strip : String → String) where
    -- The value for a text between the braces; `v` is the text itself.
    unfoldable pub resolve_key : String → Arg F → Config F → Config F → Arg F
    resolve_key key v params ctx =
        if starts_with key "params."
        then or_else (get params (slice key 7 (len key))) v
        else if starts_with key "ctx."
        then or_else (get ctx (slice key 4 (len key))) v
        else v

    unfoldable pub resolve_value : Arg F → Config F → Config F → Arg F
    resolve_value (string s) params ctx =
        if starts_with s "{{" && ends_with s "}}"
        then resolve_key (strip (slice s 2 (len s - 2))) (string s) params ctx
        else string s
    resolve_value v params ctx = v

    -- `_resolve_params`
    unfoldable pub resolve_params : Config F → Config F → Config F → Config F
    resolve_params [] params ctx = []
    resolve_params ((k, v) ∷ config) params ctx =
        (k, resolve_value v params ctx) ∷ resolve_params config params ctx
