-- ===== src/Integration/Tcl/Signals.antt =====
-- The signal of a frame, read back as the receiver does: by the length of each pause.
use rose_esp.Prelude.{
  ℕ, zero, suc, ◌+◌, ◌-◌, ◌*◌, ◌%◌, ◌≡◌, refl, ap, List, [], ◌∷◌, ◌++◌, arith, length, All, ltb,
  take, drop, if◌then◌else◌,
}
use rose_esp.Struct.{Bytes, IsByte}
use rose_esp.Integration.Tcl.{
  Floats, TclState, pulse, byte_signal, frame_signal, encode_tcl_frame, encode_tcl_ir_signal, sum,
  frame_body,
}
use rose_esp.Integration.Tcl.Frames.{
  IsFloats, degrees, temperature_byte-eq, encode_tcl_frame-IsByte,
}

-- A pause above 700 microseconds is a one.
abbrev bit_of : ℕ → ℕ
bit_of pause = if ltb 700 pause then 1 else 0

-- `n` bits, the first of the given weight, and the edges behind them.
pub read_bits : ℕ → ℕ → List (ℕ × ℕ) → ℕ × List (ℕ × ℕ)
read_bits zero weight edges = (0, edges)
read_bits (suc n) weight ((_, mark) ∷ (_, pause) ∷ edges) =
    let (v, rest) = read_bits n (2 * weight) edges in (bit_of pause * weight + v, rest)
read_bits (suc n) weight edges = (0, edges)

-- The bytes of a signal, behind its two leading edges.
pub read_bytes : ℕ → List (ℕ × ℕ) → Bytes
unfolding read_bits
read_bytes zero edges = []
read_bytes (suc n) edges = let (v, rest) = read_bits 8 1 edges in v ∷ read_bytes n rest

pub read_signal : List (ℕ × ℕ) → Bytes
unfolding read_bytes
read_signal (_ ∷ _ ∷ edges) = read_bytes 14 edges
read_signal _ = []

bit_of-pulse : (x : ℕ) → bit_of (pulse x) ≡ x % 2
unfolding pulse
bit_of-pulse x = ground arith

read_bits-byte_signal :
    (b : ℕ) (more : List (ℕ × ℕ)) → IsByte b → read_bits 8 1 (byte_signal 8 0 b ++ more) ≡ (b, more)
unfolding read_bits byte_signal
read_bits-byte_signal b more h = ap (λ v. (v, more)) (omega (arith, bit_of-pulse))

read_bytes-frame_signal :
    (frame : Bytes) → All IsByte frame → read_bytes (length frame) (frame_signal frame) ≡ frame
unfolding read_bytes frame_signal
read_bytes-frame_signal [] h = refl
read_bytes-frame_signal (b ∷ frame) h =
    rw (read_bits-byte_signal b (frame_signal frame) h.0)
      (ap (λ bs. b ∷ bs) (read_bytes-frame_signal frame h.1))

module _ {F : Type 0} (floats : Floats F) where
  length-encode_tcl_frame : (s : TclState F) → length (encode_tcl_frame floats s) ≡ 14
  unfolding encode_tcl_frame frame_body
  length-encode_tcl_frame s = refl

  -- If 16.0 is below 31.0, and rounding keeps the order and these two numbers, the frame of a state
  -- has 14 bytes, of which the last is the sum of the others modulo 256 and the eighth is 31 less
  -- the degrees: 16 unless the temperature is above it, 31 unless it is below it, and else the
  -- temperature, rounded. A receiver that tells the bits by their pauses reads exactly this frame
  -- from the signal.
  pub encode_tcl_ir_signal_lem :
      (s : TclState F)
      → IsFloats floats
      → (read_signal (encode_tcl_ir_signal floats s) ≡ encode_tcl_frame floats s)
        × All IsByte (encode_tcl_frame floats s)
        × (length (encode_tcl_frame floats s) ≡ 14)
        × (drop 13 (encode_tcl_frame floats s)
            ≡ (sum (take 13 (encode_tcl_frame floats s)) % 256) ∷ [])
        × (take 1 (drop 7 (encode_tcl_frame floats s)) ≡ (31 - degrees floats s.temperature_c) ∷ [])
  unfolding encode_tcl_ir_signal read_signal encode_tcl_frame frame_body
  encode_tcl_ir_signal_lem s r =
      let bytes = encode_tcl_frame-IsByte floats s r in
      (
        read_bytes-frame_signal (encode_tcl_frame floats s) bytes,
        bytes,
        length-encode_tcl_frame s,
        refl,
        ap (λ b. b ∷ []) (temperature_byte-eq floats s r),
      )
