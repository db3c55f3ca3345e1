-- ===== src/Server/Stream/Frames.antt =====
-- What the loop makes of a stream of whole frames, of a header that makes no sense, and how much
-- it leaves in the buffer.
use rose_esp.Prelude.{
  ℕ, ◌+◌, ◌≤◌, ◌<◌, ◌≡◌, refl, Option, none, some, List, [], ◌∷◌, ◌++◌, arith, length, take, drop,
  length-append, All, take-append, drop-append, append-nil, append_assoc,
}
use rose_esp.Prelude.Int.{pos}
use rose_esp.Prelude.Result.{Result, ok, ◌>>=◌, >>=-eq-ok}
use rose_esp.Struct.{Bytes, unpack}
use rose_esp.Protocol.Frame.{MessageFrame, header_format, to_bytes, from_bytes}
use rose_esp.Protocol.Frame.RoundTrip.{
  from_bytes-to_bytes, length-to_bytes, to_bytes_lem, header_fields,
}
use rose_esp.Struct.Laws.{length-pack, unpack-pack}
use rose_esp.Server.Stream.{
  Callback, length_field, peek_length, dispatch, deliver, extract, scan, process,
}
use rose_esp.Server.Stream.Rounds.{process_step, process_stop, process_done}
use rose_esp.Server.Stream.Chunks.{Quiet, dispatch-Quiet}

-- The frame's `length` is its payload's, and within the server's limit.
pub record IsSound (f : MessageFrame) : Type 0 where
  pub sized : f.length ≡ pos (length f.payload)
  pub limited : length f.payload ≤ 4096

unfoldable pub to_stream : List MessageFrame → Result Bytes
to_stream [] = ok []
to_stream (f ∷ fs) = do bytes ← to_bytes f; rest ← to_stream fs; ok (bytes ++ rest)

peek_length-frame :
    (f : MessageFrame) (more : Bytes) {bs : Bytes}
    → to_bytes f ≡ ok bs
    → peek_length (bs ++ more) ≡ some f.length
unfolding peek_length length_field
peek_length-frame f more {bs} h =
    let (header, p, e) = to_bytes_lem f h in
    let size : length header ≡ 8 = length-pack header_format (header_fields f) p in
    let front : take 8 (header ++ (f.payload ++ more)) ≡ header =
      rw size at (take-append header (f.payload ++ more)) in
    let read : unpack header_format header ≡ ok (header_fields f) =
      unpack-pack header_format (header_fields f) p in
    rw (e, append_assoc header f.payload more, front, read)

module _ {S : Type 0} (callback : Option (Callback S)) where
  -- Every frame dispatched in order.
  unfoldable pub dispatch_all : S → List MessageFrame → S
  dispatch_all s [] = s
  dispatch_all s (f ∷ fs) = dispatch_all (dispatch callback s f).0 fs

  scan-frame :
      (s : S) (f : MessageFrame) (more : Bytes) {bs : Bytes}
      → Quiet callback
      → IsSound f
      → to_bytes f ≡ ok bs
      → scan callback s (bs ++ more) ≡ some ((dispatch callback s f).0, more)
  unfolding scan extract deliver
  scan-frame s f more {bs} q w h =
      let n = 8 + length f.payload in
      let size : length bs ≡ n = length-to_bytes f h in
      let whole : take n (bs ++ more) ≡ bs = rw size at (take-append bs more) in
      let back : drop n (bs ++ more) ≡ more = rw size at (drop-append bs more) in
      let read : from_bytes bs ≡ ok f =
        rw (append-nil bs) at (from_bytes-to_bytes f [] w.sized h) in
      ground (
        arith,
        w.sized,
        w.limited,
        length-append bs more,
        whole,
        back,
        read,
        peek_length-frame f more h,
        dispatch-Quiet callback s f q,
      )

  -- If the callback never raises, a stream of sound frames is cut into exactly these frames: each
  -- is dispatched once, in order, and nothing is left over.
  pub process-to_stream :
      (s : S) (fs : List MessageFrame) {bs : Bytes}
      → Quiet callback
      → All IsSound fs
      → to_stream fs ≡ ok bs
      → process callback s bs ≡ (dispatch_all s fs, [])
  unfolding to_stream dispatch_all
  process-to_stream s [] {bs} q w h =
      let e : [] ≡ bs = ground arith in rw (← e) (process_stop callback s [] (unfold scan in refl))
  process-to_stream s (f ∷ fs) {bs} q w h =
      let (b, p, h') = >>=-eq-ok (to_bytes f) _ {b = bs} h in
      let (rest, r, e) = >>=-eq-ok (to_stream fs) _ {b = bs} h' in
      let joined : b ++ rest ≡ bs = ground arith in
      rw (← joined, process_step callback s (b ++ rest) (scan-frame s f rest q w.0 p))
        (process-to_stream (dispatch callback s f).0 fs q w.1 r)

  -- If the buffer has a whole header and its length is above the limit, one byte is dropped: the
  -- rest is processed as if the byte had not been there.
  pub process_resync :
      (s : S) (b : ℕ) (buffer : Bytes) (l : ℕ)
      → 8 ≤ length (b ∷ buffer)
      → peek_length (b ∷ buffer) ≡ some (pos l)
      → 4096 < l
      → process callback s (b ∷ buffer) ≡ process callback s buffer
  process_resync s b buffer l long h big =
      process_step callback s (b ∷ buffer) (unfold scan extract in ground arith)

  waiting-lt : (s : S) (buffer : Bytes) → scan callback s buffer ≡ none → length buffer < 4104
  unfolding scan extract
  waiting-lt s buffer h = ground arith

  -- What is left in the buffer is less than one frame of the largest size.
  pub length-process : (s : S) (buffer : Bytes) → length (process callback s buffer).1 < 4104
  length-process s buffer = waiting-lt _ _ (process_done callback s buffer)
