-- ===== src/Platform/Values.antt =====
-- The `dict` of an event: its keys are texts, and its values are of the kinds that the bridge's
-- events have. A Python `bool` is equal to the number 0 or 1.
use Prim.Native.String.{String}
use rose_esp.Prelude.{Bool, true, false, none, some, List, if◌then◌else◌}
use rose_esp.Prelude.Int.{ℤ, pos, eqb_ℤ}
use rose_esp.Prelude.Eq.{string_eq}
use rose_esp.Prelude.Dict.{Dict, get}
use rose_esp.Prelude.Result.{Result, ok, err, key_error, type_error}

pub data Value : Type 0 where
  null : Value
  number : ℤ → Value
  flag : Bool → Value
  string : String → Value
  edges : List (ℤ × ℤ) → Value  -- `level` and `duration_us`
  devices : List (String × ℤ) → Value  -- `mac` and `rssi`

abbrev pub Record : Type 0
Record = Dict String Value

-- `d[key]`
unfoldable pub item : Record → String → Result Value
item d key = elim (get d key) [ none ↦ err key_error | some v ↦ ok v ]

-- `d.get(key)`
unfoldable pub get_value : Record → String → Value
get_value d key = elim (get d key) [ none ↦ null | some v ↦ v ]

-- `key in d`
unfoldable pub has : Record → String → Bool
has d key = elim (get d key) [ none ↦ false | some v ↦ true ]

-- The number of a value, where it is compared or used as an index.
abbrev pub to_number : Value → Result ℤ
to_number (number n) = ok n
to_number (flag b) = ok (if b then pos 1 else pos 0)
to_number _ = err type_error

-- `value == n`
abbrev pub equals : Value → ℤ → Bool
equals (number m) n = eqb_ℤ m n
equals (flag b) n = eqb_ℤ (if b then pos 1 else pos 0) n
equals _ n = false
