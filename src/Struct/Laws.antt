-- ===== src/Struct/Laws.antt =====
-- What `pack` writes, `unpack` reads, and the other way round.
mod Fields
pub use Fields.{InRange, AllInRange, encode_total, Encoded, encode-Encoded}
use rose_esp.Prelude.{
  ◌+◌, ◌≡◌, ◌∙◌, refl, ap, List, [], ◌∷◌, ◌++◌, arith, length, take, drop, All, All-append,
  All-take, All-drop, length-append, length-take, length-drop, take-append, drop-append,
  take-append-drop, append-nil, append_assoc,
}
use rose_esp.Prelude.Int.{ℤ}
use rose_esp.Prelude.Result.{Result, ok, err, ◌>>=◌, >>=-eq-ok}
use rose_esp.Struct.{Bytes, IsByte, Format, width, encode, decode, calcsize, pack, fields, unpack}
use Fields.{encode-decode}

-- A successful `pack`, field by field.
pack-cons :
    (f : Format) (fs : List Format) (v : ℤ) (vs : List ℤ) {bs : Bytes}
    → pack (f ∷ fs) (v ∷ vs) ≡ ok bs
    → (b : Bytes) × (rest : Bytes) × (encode f v ≡ ok b) × (pack fs vs ≡ ok rest) × (b ++ rest ≡ bs)
unfolding pack
pack-cons f fs v vs {bs} h =
    let (b, p, q) = >>=-eq-ok (encode f v) _ {b = bs} h in
    let (rest, r, s) = >>=-eq-ok (pack fs vs) _ {b = bs} q in (b, rest, p, r, ground arith)

pub length-pack :
    (fs : List Format) (vs : List ℤ) {bs : Bytes} → pack fs vs ≡ ok bs → length bs ≡ calcsize fs
length-pack [] [] h = unfold pack in ground arith
length-pack [] (v ∷ vs) h = unfold pack in ground arith
length-pack (f ∷ fs) [] h = unfold pack in ground arith
length-pack (f ∷ fs) (v ∷ vs) h =
    let (b, rest, p, q, e) = pack-cons f fs v vs h in
    rw (← e) (omega (arith, length-append b rest, (encode-Encoded f v p).size, length-pack fs vs q))

pub pack-IsByte : (fs : List Format) (vs : List ℤ) {bs : Bytes} → pack fs vs ≡ ok bs → All IsByte bs
pack-IsByte [] [] h = unfold pack in ground arith
pack-IsByte [] (v ∷ vs) h = unfold pack in ground arith
pack-IsByte (f ∷ fs) [] h = unfold pack in ground arith
pack-IsByte (f ∷ fs) (v ∷ vs) h =
    let (b, rest, p, q, e) = pack-cons f fs v vs h in
    rw (← e) (All-append IsByte b rest (encode-Encoded f v p).bytes (pack-IsByte fs vs q))

fields_join :
    (f : Format) (fs : List Format) (v : ℤ) (vs : List ℤ) (b rest more : Bytes)
    → Encoded f v b
    → fields fs (rest ++ more) ≡ vs
    → fields (f ∷ fs) ((b ++ rest) ++ more) ≡ v ∷ vs
unfolding fields
fields_join f fs v vs b rest more w ih =
    rw (append_assoc b rest more, ← w.size, take-append b (rest ++ more))
      (rw (drop-append b (rest ++ more), ih, w.value))

-- The fields are read back from the front, whatever follows.
pub fields-pack :
    (fs : List Format) (vs : List ℤ) {bs : Bytes} (more : Bytes)
    → pack fs vs ≡ ok bs
    → fields fs (bs ++ more) ≡ vs
fields-pack [] [] more h = unfold fields in refl
fields-pack [] (v ∷ vs) more h = unfold pack in cc
fields-pack (f ∷ fs) [] more h = unfold pack in cc
fields-pack (f ∷ fs) (v ∷ vs) more h =
    let (b, rest, p, q, e) = pack-cons f fs v vs h in
    rw (← e) (fields_join f fs v vs b rest more (encode-Encoded f v p) (fields-pack fs vs more q))

pub unpack-pack :
    (fs : List Format) (vs : List ℤ) {bs : Bytes} → pack fs vs ≡ ok bs → unpack fs bs ≡ ok vs
unpack-pack fs vs {bs} h =
    unfold unpack in
    ground (arith, length-pack fs vs h, rw (append-nil bs) at (fields-pack fs vs [] h))

pack_join :
    (f : Format) (fs : List Format) (v : ℤ) (vs : List ℤ) {b rest : Bytes}
    → encode f v ≡ ok b
    → pack fs vs ≡ ok rest
    → pack (f ∷ fs) (v ∷ vs) ≡ ok (b ++ rest)
unfolding pack
pack_join f fs v vs p q = rw (p, ◌>>=◌) (rw (q, ◌>>=◌) refl)

pub pack-fields :
    (fs : List Format) (bs : Bytes)
    → All IsByte bs
    → length bs ≡ calcsize fs
    → pack fs (fields fs bs) ≡ ok bs
unfolding fields
pack-fields [] [] b h = unfold pack in refl
pack-fields [] (x ∷ bs) b h = absurd (omega arith)
pack-fields (f ∷ fs) bs b h =
    let front = take (width f) bs in
    let back = drop (width f) bs in
    let p =
      encode-decode f front (omega (arith, length-take (width f) bs))
        (All-take IsByte (width f) bs b) in
    let q =
      pack-fields fs back (All-drop IsByte (width f) bs b)
        (omega (arith, length-drop (width f) bs)) in
    pack_join f fs (decode f front) (fields fs back) p q ∙ ap ok (take-append-drop (width f) bs)

-- The other way round: the values read from bytes are packed to those bytes.
pub pack-unpack :
    (fs : List Format) (bs : Bytes) {vs : List ℤ}
    → All IsByte bs
    → unpack fs bs ≡ ok vs
    → pack fs vs ≡ ok bs
unfolding unpack
pack-unpack fs bs b h = ground (arith, pack-fields fs bs b)

-- Values in range are packed, and only those.
pub pack_total :
    (fs : List Format) (vs : List ℤ) → AllInRange fs vs → (bs : Bytes) × (pack fs vs ≡ ok bs)
pack_total [] [] h = ([], unfold pack in refl)
pack_total [] (v ∷ vs) h = elim h [ ]
pack_total (f ∷ fs) [] h = elim h [ ]
pack_total (f ∷ fs) (v ∷ vs) h =
    let (b, p) = encode_total f v h.0 in
    let (rest, q) = pack_total fs vs h.1 in (b ++ rest, pack_join f fs v vs p q)

pub pack-AllInRange :
    (fs : List Format) (vs : List ℤ) {bs : Bytes} → pack fs vs ≡ ok bs → AllInRange fs vs
pack-AllInRange [] [] h = tt
pack-AllInRange [] (v ∷ vs) h = unfold pack in cc
pack-AllInRange (f ∷ fs) [] h = unfold pack in cc
pack-AllInRange (f ∷ fs) (v ∷ vs) h =
    let (b, rest, p, q, e) = pack-cons f fs v vs h in
    ((encode-Encoded f v p).range, pack-AllInRange fs vs q)
