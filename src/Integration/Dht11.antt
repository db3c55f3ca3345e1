-- ===== src/Integration/Dht11.antt =====
-- `decode_dht11_signal` of custom_components/rose/protocols/dht11.py. An edge is a dict: a key that
-- is missing is `none`. Floating point numbers are a parameter.
pub mod Edges
use Prim.Native.Nat.{bit_or}
use rose_esp.Prelude.{
  ℕ, zero, suc, ◌+◌, ◌-◌, ◌/◌, ◌%◌, ◌^◌, Bool, true, false, not, ◌&&◌, Option, none, some, List, [],
  ◌∷◌, ◌++◌, length, ltb, ◌==◌, if◌then◌else◌, take,
}
use rose_esp.Prelude.Int.{ℤ, pos, negsuc, ltb_ℤ, eqb_ℤ}
use rose_esp.Prelude.Result.{Result, ok, err, value_error}
use rose_esp.Struct.{Bytes}

pub record Edge : Type 0 where
  pub level : Option ℤ
  pub duration_us : Option ℤ

-- `edge.get(key, default)`
abbrev pub get_or : Option ℤ → ℤ → ℤ
get_or none default_ = default_
get_or (some n) default_ = n

-- `low <= n <= high`
abbrev pub between : ℤ → ℤ → ℤ → Bool
between low n high = not (ltb_ℤ n low) && not (ltb_ℤ high n)

-- One round on a high pulse: whether the response has started, and the data pulses.
unfoldable pub high_pulse : ℤ → Bool → List ℤ → Bool × List ℤ
high_pulse duration_us false high_pulses = (between (pos 65) duration_us (pos 95), high_pulses)
high_pulse duration_us true high_pulses = (
  true,
  if between (pos 10) duration_us (pos 100) then high_pulses ++ duration_us ∷ [] else high_pulses,
)

-- The loop over the edges; it ends at the fortieth data pulse.
unfoldable pub collect : List Edge → Bool → List ℤ → List ℤ
collect [] response_started high_pulses = high_pulses
collect (edge ∷ edges) response_started high_pulses =
    let (started, pulses) =
      high_pulse (get_or edge.duration_us (pos 0)) response_started high_pulses in
    let skipped = collect edges response_started high_pulses in
    let later = collect edges started pulses in
    if not (eqb_ℤ (get_or edge.level (negsuc 0)) (pos 1))
    then skipped
    else if response_started && (length pulses == 40)
    then pulses
    else later

-- `frame[index] |= mask`
unfoldable pub or_at : ℕ → ℕ → Bytes → Bytes
or_at index mask [] = []
or_at zero mask (b ∷ frame) = bit_or b mask ∷ frame
or_at (suc index) mask (b ∷ frame) = b ∷ or_at index mask frame

-- The loop over the data pulses: a long one sets its bit.
unfoldable pub fill : ℕ → List ℤ → Bytes → Bytes
fill bit_index [] frame = frame
fill bit_index (duration_us ∷ high_pulses) frame = fill (bit_index + 1) high_pulses (
    if ltb_ℤ (pos 50) duration_us
    then or_at (bit_index / 8) (2 ^ (7 - bit_index % 8)) frame
    else frame)

-- `tenths whole part` is `whole + part / 10` and `negate` is the sign's change.
module _ {F : Type 0} (tenths : ℕ → ℕ → F) (negate : F → F) where
  -- From the checksum on: temperature and humidity.
  unfoldable pub read_frame : Bytes → Result (F × F)
  read_frame (b0 ∷ b1 ∷ b2 ∷ b3 ∷ b4 ∷ []) =
      if not ((b0 + b1 + b2 + b3) % 256 == b4)
      then err value_error
      else (let temperature = tenths (b2 % 128) b3 in
          ok (if ltb 127 b2 then negate temperature else temperature, tenths b0 b1))
  read_frame _ = err value_error

  unfoldable pub decode_dht11_signal : List Edge → Result (F × F)
  decode_dht11_signal edges =
      let high_pulses = collect edges false [] in
      if not (length high_pulses == 40)
      then err value_error
      else read_frame (fill 0 high_pulses (0 ∷ 0 ∷ 0 ∷ 0 ∷ 0 ∷ []))
