-- ===== src/Integration/Tcl.antt =====
-- The infrared encoder of custom_components/rose/protocols/tcl.py. A Python `float` is a value of an
-- abstract type, with the operations on it that the code uses as a parameter.
pub mod Frames
pub mod Signals
use Prim.Native.Nat.{bit_and, bit_or, min}
use rose_esp.Prelude.{
  ℕ, zero, suc, ◌+◌, ◌-◌, ◌*◌, ◌/◌, ◌%◌, ◌^◌, ◌≤◌, Bool, true, false, not, ◌&&◌, List, [], ◌∷◌,
  ◌++◌, ltb, ◌==◌, if◌then◌else◌,
}
use rose_esp.Prelude.Int.{ℤ, pos, pos_part, ltb_ℤ}
use rose_esp.Struct.{Bytes}

pub data TclPowerState : Type 0 where
  off on : TclPowerState

pub data TclHvacMode : Type 0 where
  auto cool heat dry fan_only : TclHvacMode

pub data TclFanMode : Type 0 where
  auto_fan minimal low medium high : TclFanMode

pub record TclState (F : Type 0) : Type 0 where
  pub power : TclPowerState
  pub mode : TclHvacMode
  pub temperature_c : F
  pub fan : TclFanMode
  pub swing_vertical : Bool
  pub swing_horizontal : Bool
  pub econo : Bool
  pub health : Bool
  pub turbo : Bool
  pub light : Bool
  pub timer_minutes : ℤ
  pub aux_heat : Bool

-- Python's `float`: `<`, the two bounds, and `int(round(x))`.
pub record Floats (F : Type 0) : Type 0 where
  pub less : F → F → Bool
  pub sixteen : F
  pub thirty_one : F
  pub round : F → ℤ

-- `min(31.0, max(16.0, t))`: of two arguments Python takes the first unless the second is beyond it.
unfoldable pub clamped : {F : Type 0} → Floats F → F → F
clamped floats t =
    let warm = if floats.less floats.sixteen t then t else floats.sixteen in
    if floats.less warm floats.thirty_one then warm else floats.thirty_one

-- `value & ~mask` of a number that is not negative
abbrev pub and_not : ℕ → ℕ → ℕ
and_not value mask = value - bit_and value mask

unfoldable pub set_bit : ℕ → ℕ → Bool → ℕ
set_bit value bit enabled = if enabled then bit_or value (2 ^ bit) else and_not value (2 ^ bit)

unfoldable pub set_bits : ℕ → ℕ → ℕ → ℕ → ℕ
set_bits value offset width field_ =
    let mask = (2 ^ width - 1) * 2 ^ offset in
    bit_or (and_not value mask) (bit_and (field_ * 2 ^ offset) mask)

abbrev pub is_on : TclPowerState → Bool
is_on on = true
is_on off = false

abbrev pub mode_code : TclHvacMode → ℕ
mode_code auto = 8
mode_code cool = 3
mode_code heat = 1
mode_code dry = 2
mode_code fan_only = 7

-- The code of a fan mode, with the exception for a fan that runs by itself.
abbrev pub fan_code : TclHvacMode → TclFanMode → ℕ
fan_code fan_only auto_fan = 5
fan_code mode auto_fan = 0
fan_code mode minimal = 1
fan_code mode low = 2
fan_code mode medium = 3
fan_code mode high = 5

abbrev pub is_heat : TclHvacMode → Bool
is_heat heat = true
is_heat _ = false

abbrev pub sum : Bytes → ℕ
sum [] = 0
sum (b ∷ bs) = b + sum bs

module _ {F : Type 0} (floats : Floats F) where
  -- `frame[5]`, from the base state's 0x20
  unfoldable pub flags_byte : TclState F → ℕ
  flags_byte s =
      set_bit
        (set_bit (set_bit (set_bit 0x20 2 (is_on s.power)) 3 (ltb_ℤ (pos 0) s.timer_minutes)) 6
          (not s.light))
        7 s.econo

  -- `frame[6]`
  unfoldable pub mode_byte : TclState F → ℕ
  mode_byte s = set_bit (set_bit (set_bits 0 0 4 (mode_code s.mode)) 4 s.health) 6 s.turbo

  -- `frame[7]`; the clamped temperature is from 16 to 31, so that the subtraction does not stop at 0.
  unfoldable pub temperature_byte : TclState F → ℕ
  temperature_byte s =
      set_bits 0 0 4 (31 - pos_part (floats.round (clamped floats s.temperature_c)))

  -- `frame[8]`
  unfoldable pub fan_byte : TclState F → ℕ
  fan_byte s =
      set_bits (set_bits 0 0 3 (fan_code s.mode s.fan)) 3 3 (if s.swing_vertical then 7 else 0)

  -- `frame[9]`
  unfoldable pub timer_byte : TclState F → ℕ
  timer_byte s = min 1440 (pos_part s.timer_minutes) / 10 % 256

  -- `frame[12]`
  unfoldable pub swing_byte : TclState F → ℕ
  swing_byte s =
      set_bit (set_bit 0 3 s.swing_horizontal) 7 (is_heat s.mode && (s.turbo && not s.aux_heat))

  -- All bytes but the last.
  unfoldable pub frame_body : TclState F → Bytes
  frame_body s =
      0x23
      ∷ 0xCB
      ∷ 0x26
      ∷ 0x01
      ∷ 0x00
      ∷ flags_byte s
      ∷ mode_byte s
      ∷ temperature_byte s
      ∷ fan_byte s
      ∷ timer_byte s
      ∷ 0
      ∷ 0
      ∷ swing_byte s
      ∷ []

  unfoldable pub encode_tcl_frame : TclState F → Bytes
  encode_tcl_frame s = let body = frame_body s in body ++ (sum body % 256) ∷ []

-- The two edges of one bit.
unfoldable pub pulse : ℕ → ℕ
pulse shifted = if shifted % 2 == 1 then 1100 else 350

-- `for bit in range(8)`, from `bit` on
unfoldable pub byte_signal : ℕ → ℕ → ℕ → List (ℕ × ℕ)
byte_signal zero bit byte_value = []
byte_signal (suc n) bit byte_value =
    (1, 500) ∷ (0, pulse (byte_value / 2 ^ bit)) ∷ byte_signal n (bit + 1) byte_value

unfoldable pub frame_signal : Bytes → List (ℕ × ℕ)
frame_signal [] = (1, 500) ∷ []
frame_signal (byte_value ∷ frame) = byte_signal 8 0 byte_value ++ frame_signal frame

-- The signal; the carrier and the duty cycle are constants.
unfoldable pub encode_tcl_ir_signal : {F : Type 0} → Floats F → TclState F → List (ℕ × ℕ)
encode_tcl_ir_signal floats s = (1, 3100) ∷ (0, 1600) ∷ frame_signal (encode_tcl_frame floats s)
