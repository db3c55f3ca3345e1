-- ===== src/Protocol/Events/Loops/Laws.antt =====
-- The loops that read a variable number of entries: when they succeed, and with how many.
use Prim.Native.Nat.{min}
use rose_esp.Prelude.{
  ℕ, zero, suc, ◌*◌, ◌/◌, ◌≤◌, ◌≡◌, refl, List, [], ◌∷◌, arith, length, take, drop, ltb,
  length-take, length-drop, Bool-cases, inl, inr,
}
use rose_esp.Prelude.Int.{ℤ}
use rose_esp.Prelude.Result.{ok, ◌>>=◌, >>=-eq-ok}
use rose_esp.Struct.{Bytes, Format, s8, width, unpack, fields, decode}
use rose_esp.Protocol.Frame.{slice}
use rose_esp.Protocol.Events.{SignalEdge}
use rose_esp.Protocol.Events.Reads.{unpack_one}
use rose_esp.Protocol.Events.Loops.{edge_from_bytes, read_edges, read_devices}

unpack_one_total :
    (f : Format) (bs : Bytes) → length bs ≡ width f → (v : ℤ) × (unpack_one f bs ≡ ok v)
unfolding unpack fields
unpack_one_total f bs h = (decode f (take (width f) bs), ground arith)

-- The loop over the peers reads as many entries as the count announces and whole entries are
-- there, and never fails.
pub read_devices_total :
    (n : ℕ) (bytes : Bytes)
    → (devices : List (Bytes × ℤ)) × (read_devices n bytes ≡ ok devices)
      × (length devices ≡ min n (length bytes / 7))
unfolding read_devices
read_devices_total zero bytes = ([], refl, omega arith)
read_devices_total (suc n) bytes = elim (Bool-cases (ltb (length bytes) 7)) [
  | inl short ↦ ([], rw short, ground arith)
  | inr long ↦
      let (rssi, e) =
        unpack_one_total s8 (slice 6 1 bytes)
          (ground (arith, length-take 1 (drop 6 bytes), length-drop 6 bytes)) in
      let (devices, d, l) = read_devices_total n (drop 7 bytes) in
      (
        (take 6 bytes, rssi) ∷ devices,
        rw (long, e, ◌>>=◌) (rw d),
        ground (arith, length-drop 7 bytes),
      )
]

edge_from_bytes-size :
    (bs : Bytes) {edge : SignalEdge} → edge_from_bytes bs ≡ ok edge → length bs ≡ 5
unfolding edge_from_bytes unpack
edge_from_bytes-size bs h = ground arith

-- If the loop over the edges succeeds, then every announced edge is there, and it returns exactly
-- that many.
pub read_edges-enough :
    (n : ℕ) (bytes : Bytes) {edges : List SignalEdge}
    → read_edges n bytes ≡ ok edges
    → (length edges ≡ n) × (5 * n ≤ length bytes)
unfolding read_edges
read_edges-enough zero bytes h = ground arith
read_edges-enough (suc n) bytes {edges} h =
    let (edge, p, q) = >>=-eq-ok (edge_from_bytes (take 5 bytes)) _ {b = edges} h in
    let (rest, r, s) = >>=-eq-ok (read_edges n (drop 5 bytes)) _ {b = edges} q in
    let (count, size) = read_edges-enough n (drop 5 bytes) r in
    let whole = edge_from_bytes-size (take 5 bytes) p in
    ground (arith, length-drop 5 bytes, length-take 5 bytes)
