-- ===== src/Protocol/Commands/Laws.antt =====
-- Signals on the wire: their size, and the edges read back by the loop that reads a capture.
use rose_esp.Prelude.{
  ℕ, suc, ◌+◌, ◌*◌, ◌≡◌, refl, List, [], ◌∷◌, ◌++◌, map, arith, length, take, drop, length-append,
  take-append, drop-append, append_assoc,
}
use rose_esp.Prelude.Int.{ℤ, pos}
use rose_esp.Prelude.Result.{Result, ok, ◌>>=◌, >>=-eq-ok}
use rose_esp.Struct.{Bytes, Format, u8, u16, s64, pack}
use rose_esp.Struct.Laws.{length-pack, unpack-pack}
use rose_esp.Protocol.Events.{SignalEdge}
use rose_esp.Protocol.Events.Loops.{
  edge_format, edge_from_bytes, read_edges, gpio_signal_captured_from_bytes,
}
use rose_esp.Protocol.Commands.Signals.{CmdGpioSignalTx, signal_bytes, gpio_signal_tx_to_bytes}

abbrev pub edge_of : ℤ × ℤ → SignalEdge
edge_of (level, duration) = record { level = level; duration_us = duration }

signal_bytes-cons :
    (level duration : ℤ) (signal : List (ℤ × ℤ)) {bs : Bytes}
    → signal_bytes ((level, duration) ∷ signal) ≡ ok bs
    → (edge : Bytes) × (rest : Bytes) × (pack edge_format (level ∷ duration ∷ []) ≡ ok edge)
      × (signal_bytes signal ≡ ok rest)
      × (edge ++ rest ≡ bs)
unfolding signal_bytes
signal_bytes-cons level duration signal {bs} h =
    let (edge, p, q) = >>=-eq-ok (pack edge_format (level ∷ duration ∷ [])) _ {b = bs} h in
    let (rest, r, s) = >>=-eq-ok (signal_bytes signal) _ {b = bs} q in
    (edge, rest, p, r, ground arith)

pub length-signal_bytes :
    (signal : List (ℤ × ℤ)) {bs : Bytes}
    → signal_bytes signal ≡ ok bs
    → length bs ≡ 5 * length signal
length-signal_bytes [] h = unfold signal_bytes in ground arith
length-signal_bytes ((level, duration) ∷ signal) h =
    let (edge, rest, p, r, e) = signal_bytes-cons level duration signal h in
    rw (← e) (
      omega (
        arith,
        length-append edge rest,
        length-pack edge_format (level ∷ duration ∷ []) p,
        length-signal_bytes signal r,
      ))

edge_from_bytes-pack :
    (level duration : ℤ) {edge : Bytes}
    → pack edge_format (level ∷ duration ∷ []) ≡ ok edge
    → edge_from_bytes edge ≡ ok (edge_of (level, duration))
unfolding edge_from_bytes
edge_from_bytes-pack level duration p =
    rw (unpack-pack edge_format (level ∷ duration ∷ []) p, ◌>>=◌)

read_edges_step :
    (n : ℕ) (edge rest : Bytes) {x : SignalEdge} {xs : List SignalEdge}
    → length edge ≡ 5
    → edge_from_bytes edge ≡ ok x
    → read_edges n rest ≡ ok xs
    → read_edges (suc n) (edge ++ rest) ≡ ok (x ∷ xs)
unfolding read_edges
read_edges_step n edge rest size p q =
    let front : take 5 (edge ++ rest) ≡ edge = rw size at (take-append edge rest) in
    let back : drop 5 (edge ++ rest) ≡ rest = rw size at (drop-append edge rest) in
    rw (front, back, p, q)

-- The edges that a signal writes are read back, whatever follows.
pub read_edges-signal_bytes :
    (signal : List (ℤ × ℤ)) (more : Bytes) {bs : Bytes}
    → signal_bytes signal ≡ ok bs
    → read_edges (length signal) (bs ++ more) ≡ ok (map edge_of signal)
read_edges-signal_bytes [] more h = unfold read_edges in refl
read_edges-signal_bytes ((level, duration) ∷ signal) more h =
    let (edge, rest, p, r, e) = signal_bytes-cons level duration signal h in
    rw (← e, append_assoc edge rest more)
      (read_edges_step (length signal) edge (rest ++ more)
        (length-pack edge_format (level ∷ duration ∷ []) p) (edge_from_bytes-pack level duration p)
        (read_edges-signal_bytes signal more r))

-- '<HBHq'
abbrev pub captured_format : List Format
captured_format = u16 ∷ u8 ∷ u16 ∷ s64 ∷ []

-- A capture report, written as the header that the firmware documents, with the number of its
-- edges, and the edges behind it, is read as the report of exactly these edges, and bytes behind
-- them are ignored.
pub gpio_signal_captured_from_bytes_lem :
    (cmd_id gpio timestamp_us : ℤ) (signal : List (ℤ × ℤ)) (more : Bytes) {header body : Bytes}
    → pack captured_format (cmd_id ∷ gpio ∷ pos (length signal) ∷ timestamp_us ∷ []) ≡ ok header
    → signal_bytes signal ≡ ok body
    → gpio_signal_captured_from_bytes (header ++ (body ++ more))
      ≡ ok (record {
        cmd_id = cmd_id;
        gpio = gpio;
        edge_count = pos (length signal);
        timestamp_us = timestamp_us;
        edges = map edge_of signal;
      })
unfolding gpio_signal_captured_from_bytes
gpio_signal_captured_from_bytes_lem cmd_id gpio timestamp_us signal more {header} {body} p q =
    let size : length header ≡ 13 = length-pack captured_format _ p in
    let front : take 13 (header ++ (body ++ more)) ≡ header =
      rw size at (take-append header (body ++ more)) in
    let back : drop 13 (header ++ (body ++ more)) ≡ body ++ more =
      rw size at (drop-append header (body ++ more)) in
    rw (front, unpack-pack captured_format _ p, ◌>>=◌)
      (rw (back, read_edges-signal_bytes signal more q, ◌>>=◌))

module _ {F : Type 0} (pack_float : F → Result Bytes) where
  -- `struct.pack('<f', x)` gives four bytes, if it gives any.
  abbrev pub FourBytes : Type 0
  FourBytes = (x : F) (b : Bytes) → pack_float x ≡ ok b → length b ≡ 4

  -- If a packed float has four bytes, the payload of a transmission has 21 bytes before the signal, and five for each edge of it.
  pub length-gpio_signal_tx_to_bytes :
      (c : CmdGpioSignalTx F) {bs : Bytes}
      → FourBytes
      → gpio_signal_tx_to_bytes pack_float c ≡ ok bs
      → length bs ≡ 21 + 5 * length c.signal_data
  unfolding gpio_signal_tx_to_bytes
  length-gpio_signal_tx_to_bytes c {bs} four h =
      let (head, p, h₁) = >>=-eq-ok (pack _ _) _ {b = bs} h in
      let (duty, q, h₂) = >>=-eq-ok (pack_float c.duty_cycle) _ {b = bs} h₁ in
      let (tail, r, h₃) = >>=-eq-ok (pack _ _) _ {b = bs} h₂ in
      let (signal, s, h₄) = >>=-eq-ok (signal_bytes c.signal_data) _ {b = bs} h₃ in
      let e : (head ++ (duty ++ tail)) ++ signal ≡ bs = ground arith in
      rw (← e) (
        omega (
          arith,
          length-append (head ++ (duty ++ tail)) signal,
          length-append head (duty ++ tail),
          length-append duty tail,
          length-pack _ _ p,
          four c.duty_cycle duty q,
          length-pack _ _ r,
          length-signal_bytes c.signal_data s,
        ))
