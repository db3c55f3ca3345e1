-- ===== src/Witness/Stream.antt =====
-- Tests of the byte stream that the server cuts into frames.
use rose_esp.Prelude.{◌≡◌, ◌<◌, refl, arith, [], ◌∷◌, ◌++◌, length}
use rose_esp.Prelude.Result.{ok}
use rose_esp.Server.Stream.{receive, process, peek_length, scan}
use rose_esp.Server.Stream.Chunks.{join, receive-eq-process}
use rose_esp.Server.Stream.Frames.{
  IsSound, to_stream, dispatch_all, process-to_stream, process_resync, length-process,
}
use rose_esp.Protocol.Frame.{to_bytes}
use rose_esp.Struct.{pack, encode, unsigned, le_bytes, unpack, fields, decode, of_le}
use rose_esp.Witness.Data.{counting, ack_frame, ack_bytes}

receive-eq-process_example :
    receive counting 0 [] (ack_bytes ∷ (1 ∷ []) ∷ (3 ∷ 9 ∷ []) ∷ [])
    ≡ process counting 0 ([] ++ join counting (ack_bytes ∷ (1 ∷ []) ∷ (3 ∷ 9 ∷ []) ∷ []))
receive-eq-process_example =
    receive-eq-process counting 0 [] (ack_bytes ∷ (1 ∷ []) ∷ (3 ∷ 9 ∷ []) ∷ []) (λ s frame. refl)
      (unfold scan in refl)

ack_to_bytes : to_bytes ack_frame ≡ ok ack_bytes
unfolding to_bytes pack encode unsigned le_bytes
ack_to_bytes = refl

ack_IsSound : IsSound ack_frame
ack_IsSound = record { sized = refl; limited = omega arith }

ack_to_stream : to_stream (ack_frame ∷ ack_frame ∷ []) ≡ ok (ack_bytes ++ ack_bytes)
unfolding to_stream to_bytes pack encode unsigned le_bytes
ack_to_stream = refl

process-to_stream_example :
    process counting 0 (ack_bytes ++ ack_bytes)
    ≡ (dispatch_all counting 0 (ack_frame ∷ ack_frame ∷ []), [])
process-to_stream_example =
    process-to_stream counting 0 (ack_frame ∷ ack_frame ∷ []) (λ s frame. refl)
      (ack_IsSound, (ack_IsSound, tt)) ack_to_stream

length-process_example : length (process counting 0 ack_bytes).1 < 4104
length-process_example = length-process counting 0 ack_bytes

process_resync_example :
    process counting 0 (1 ∷ 3 ∷ 255 ∷ 255 ∷ 0 ∷ 0 ∷ 0 ∷ 0 ∷ [])
    ≡ process counting 0 (3 ∷ 255 ∷ 255 ∷ 0 ∷ 0 ∷ 0 ∷ 0 ∷ [])
process_resync_example =
    process_resync counting 0 1 (3 ∷ 255 ∷ 255 ∷ 0 ∷ 0 ∷ 0 ∷ 0 ∷ []) 65535 (omega arith)
      (unfold peek_length unpack fields decode of_le in refl) (omega arith)
