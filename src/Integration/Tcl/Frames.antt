-- ===== src/Integration/Tcl/Frames.antt =====
-- The bytes of a frame.
use rose_esp.Prelude.{
  ◌==◌, ==_iff, ◌&&◌, ℕ, ◌-◌, ◌≤◌, ◌<◌, ◌≡◌, refl, Bool, true, if◌then◌else◌, arith, All,
  All-append, not,
}
use rose_esp.Prelude.Int.{pos, pos_part, ◌≤ℤ◌, ltb_ℤ}
use rose_esp.Prelude.Finite.{below, below_sound}
use rose_esp.Struct.{IsByte}
use rose_esp.Integration.Tcl.{
  Floats, clamped, TclState, TclHvacMode, TclFanMode, is_on, is_heat, mode_code, fan_code, set_bit,
  set_bits, flags_byte, mode_byte, temperature_byte, fan_byte, timer_byte, swing_byte, frame_body,
  encode_tcl_frame,
}

flags-IsByte : (a b c d : Bool) → set_bit (set_bit (set_bit (set_bit 0x20 2 a) 3 b) 6 c) 7 d < 256
unfolding set_bit
flags-IsByte a b c d = ground arith

mode-IsByte :
    (mode : TclHvacMode) (a b : Bool)
    → set_bit (set_bit (set_bits 0 0 4 (mode_code mode)) 4 a) 6 b < 256
unfolding set_bit set_bits
mode-IsByte mode a b = ground arith

fan-IsByte :
    (mode : TclHvacMode) (fan : TclFanMode) (a : Bool)
    → set_bits (set_bits 0 0 3 (fan_code mode fan)) 3 3 (if a then 7 else 0) < 256
unfolding set_bits
fan-IsByte mode fan a = ground arith

-- In four bits, the field is the number itself.
temperature_checked : below 16 (λ n. set_bits 0 0 4 n == n) ≡ true
unfolding set_bits
temperature_checked = refl

swing-IsByte : (a b : Bool) → set_bit (set_bit 0 3 a) 7 b < 256
unfolding set_bit
swing-IsByte a b = ground arith

-- What Python documents of floats, as far as it is needed: 16.0 is below 31.0, both are rounded to
-- themselves, and rounding keeps the order.
pub record IsFloats {F : Type 0} (floats : Floats F) : Type 0 where
  pub bounds_ordered : floats.less floats.sixteen floats.thirty_one ≡ true
  pub round_sixteen : floats.round floats.sixteen ≡ pos 16
  pub round_thirty_one : floats.round floats.thirty_one ≡ pos 31
  pub round_monotone : (a b : F) → floats.less a b ≡ true → floats.round a ≤ℤ floats.round b

-- The degrees that are sent: 16 unless the temperature is above it, 31 unless it is below it, and
-- else the temperature, rounded.
abbrev pub degrees : {F : Type 0} → Floats F → F → ℕ
degrees floats t =
    if floats.less floats.sixteen t
    then (if floats.less t floats.thirty_one then pos_part (floats.round t) else 31)
    else 16

module _ {F : Type 0} (floats : Floats F) where
  clamped-degrees :
      (t : F) → IsFloats floats → pos_part (floats.round (clamped floats t)) ≡ degrees floats t
  unfolding clamped
  clamped-degrees t r = ground (arith, r.bounds_ordered, r.round_sixteen, r.round_thirty_one)

  degrees_bounds : (t : F) → IsFloats floats → (16 ≤ degrees floats t) × (degrees floats t ≤ 31)
  degrees_bounds t r = ground (
    arith,
    r.round_sixteen,
    r.round_thirty_one,
    r.round_monotone floats.sixteen t,
    r.round_monotone t floats.thirty_one,
  )

  pub temperature_byte-eq :
      (s : TclState F)
      → IsFloats floats
      → temperature_byte floats s ≡ 31 - degrees floats s.temperature_c
  unfolding temperature_byte
  temperature_byte-eq s r =
      let (low, high) = degrees_bounds s.temperature_c r in
      let n = 31 - degrees floats s.temperature_c in
      rw (clamped-degrees s.temperature_c r) (
        let checked =
          below_sound 16 (λ k. set_bits 0 0 4 k == k) temperature_checked n (omega arith) in
        (==_iff (set_bits 0 0 4 n) n).0 checked)

  body-IsByte : (s : TclState F) → IsFloats floats → All IsByte (frame_body floats s)
  unfolding frame_body flags_byte mode_byte fan_byte timer_byte swing_byte
  body-IsByte s r = (
    omega arith,
    (
      omega arith,
      (
        omega arith,
        (
          omega arith,
          (
            omega arith,
            (
              flags-IsByte (is_on s.power) (ltb_ℤ (pos 0) s.timer_minutes) (not s.light) s.econo,
              (
                mode-IsByte s.mode s.health s.turbo,
                (
                  omega (arith, temperature_byte-eq s r),
                  (
                    fan-IsByte s.mode s.fan s.swing_vertical,
                    (
                      omega arith,
                      (
                        omega arith,
                        (
                          omega arith,
                          (
                            swing-IsByte s.swing_horizontal
                                (is_heat s.mode && (s.turbo && not s.aux_heat)),
                            tt,
                          ),
                        ),
                      ),
                    ),
                  ),
                ),
              ),
            ),
          ),
        ),
      ),
    ),
  )

  pub encode_tcl_frame-IsByte :
      (s : TclState F) → IsFloats floats → All IsByte (encode_tcl_frame floats s)
  unfolding encode_tcl_frame
  encode_tcl_frame-IsByte s r =
      All-append IsByte (frame_body floats s) _ (body-IsByte s r) (omega arith, tt)
