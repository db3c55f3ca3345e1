-- ===== src/Witness/Capture.antt =====
-- Tests of the decoder of a sensor's capture.
use rose_esp.Prelude.{ℕ, zero, suc, ◌≡◌, refl, some, List, [], ◌∷◌, ◌++◌}
use rose_esp.Prelude.Int.{pos}
use rose_esp.Prelude.Result.{ok}
use rose_esp.Integration.Dht11.{
  Edge, high_pulse, collect, or_at, fill, read_frame, decode_dht11_signal,
}
use rose_esp.Integration.Dht11.Edges.{
  high_edges, decode_dht11_signal-high_edges, decode_dht11_signal-append,
}

abbrev high : ℕ → Edge
high duration = record { level = some (pos 1); duration_us = some (pos duration) }

abbrev low : Edge
low = record { level = some (pos 0); duration_us = some (pos 50) }

abbrev bits : ℕ → List Edge
bits zero = []
bits (suc n) = low ∷ high 26 ∷ bits n

-- The capture of a frame whose last bit of the second and of the last byte are set.
abbrev capture : List Edge
capture = high 80 ∷ bits 15 ++ (low ∷ high 70 ∷ bits 23 ++ (low ∷ high 70 ∷ []))

abbrev tenths : ℕ → ℕ → ℕ × ℕ
tenths whole part = (whole, part)

abbrev negate : ℕ × ℕ → ℕ × ℕ
negate x = x

decode_dht11_signal-high_edges_example :
    decode_dht11_signal tenths negate (high_edges capture)
    ≡ decode_dht11_signal tenths negate capture
decode_dht11_signal-high_edges_example = decode_dht11_signal-high_edges tenths negate capture

capture_decoded : decode_dht11_signal tenths negate capture ≡ ok ((0, 0), (0, 1))
unfolding decode_dht11_signal collect high_pulse fill or_at read_frame
capture_decoded = refl

decode_dht11_signal-append_example :
    decode_dht11_signal tenths negate (capture ++ high 99 ∷ low ∷ []) ≡ ok ((0, 0), (0, 1))
decode_dht11_signal-append_example =
    decode_dht11_signal-append tenths negate capture (high 99 ∷ low ∷ []) capture_decoded
