-- ===== src/Pb/Format/Arrays.antt =====
-- The arrays of a message: entries one by one, and numbers packed into one value.
use flchat.Base.{
  ◌≢◌, ◌≤◌, none, ℕ, zero, suc, ◌+◌, ◌*◌, ◌^◌, ◌<◌, ◌≡◌, refl, ap, ◌∙◌, arith, some, List, length,
  length-append, subst, sym, ◌==◌, Bool-cases, inl, inr,
}
use mathlib.Core.Path.{fun_ext}
use flchat.Base.Memory.{Memory, store, u64}
use flchat.Pb.{Field, pb_ltype, ok, Outcome-cases}
use flchat.Pb.LType
use flchat.Pb.Decode.Substream.{delimited}
use flchat.Pb.Encode.Shape.{base128}
use flchat.Pb.Encode.Scalars.{pb_encode_varint-Writes}
use flchat.Pb.Encode.Writes.{Writes, buffered, counting, store-append}
use flchat.Pb.EncodeArray.{encode_items, encode_packed, write_packed}
use flchat.Pb.Format.{Bytes, ◌⊕◌, items_bytes}
use flchat.Pb.Format.Rules.{
  Implements, Refuses, behind_length, Implements-return, Implements-then, ⊕-some,
}
use flchat.Pb.Ostream.{Ostream, Cursor, Encoder, pb_write, pb_ostream_sizing}

pub encode_items-Implements :
    (count step p : ℕ) (func : ℕ → Encoder Cursor) (item : ℕ → Bytes)
    → ((q : ℕ) → Implements (func q) (item q))
    → Implements (encode_items count func step p) (items_bytes count item step p)
unfolding encode_items items_bytes
encode_items-Implements zero step p func item h = Implements-return
encode_items-Implements (suc count) step p func item h =
    Implements-then (func p) (encode_items count func step (u64 (p + step))) (item p)
      (items_bytes count item step (u64 (p + step))) (h p)
      (encode_items-Implements count step (u64 (p + step)) func item h)

both_some : (xs ys : Bytes) → xs ≢ none → ys ≢ none → (xs ⊕ ys) ≢ none
both_some none ys p q e = p refl
both_some (some xs) none p q e = q refl
both_some (some xs) (some ys) p q e = absurd (cc)

-- Entries of one size.
pub length-items_bytes :
    (width count step p : ℕ) (item : ℕ → Bytes) (bs : List ℕ)
    → ((q : ℕ) (xs : List ℕ) → item q ≡ some xs → length xs ≡ width)
    → items_bytes count item step p ≡ some bs
    → length bs ≡ width * count
unfolding items_bytes
length-items_bytes width zero step p item bs h e = ground arith
length-items_bytes width (suc count) step p item bs h e =
    let (ds, cs, first, later, both) =
      ⊕-some (item p) (items_bytes count item step (u64 (p + step))) bs e in
    let front = h p ds first in
    let back = length-items_bytes width count step (u64 (p + step)) item cs h later in
    grind (arith, ap length both, length-append ds cs)

-- Either the size has no room, or the entries behind it.
packed_overflows :
    (count step p : ℕ) (func : ℕ → Encoder Cursor) (bs : List ℕ) (m : Memory) (d size written : ℕ)
    → length bs < 2 ^ 64
    → Writes (encode_items count func step p) bs
    → written ≤ size
    → size < written + length (delimited bs)
    → size + length (delimited bs) < 2 ^ 64
    → (s' : Ostream Cursor)
    → write_packed count func step p (length bs) (buffered m d size written none) ≢ ok tt s'
packed_overflows count step p func bs m d size written small items le over sum s' =
    let head = base128 9 (length bs) in
    let long : length (delimited bs) ≡ length head + length bs = length-append head bs in
    behind_length (length bs) _ m d size written s' small le (omega arith) (omega (arith, long))
      (λ room.
        items.overflows (store m d head) (d + length head) size (written + length head) room
          (omega (arith, long)) (omega (arith, long)) s')

-- What follows the tag of a packed array, once its size is known.
write_packed-Writes :
    (count step p : ℕ) (func : ℕ → Encoder Cursor) (bs : List ℕ)
    → length bs < 2 ^ 64
    → Writes (encode_items count func step p) bs
    → Writes (write_packed count func step p (length bs)) (delimited bs)
unfolding pb_write
write_packed-Writes count step p func bs small w = record {
  fits = λ m d size written small' room.
      let head = base128 9 (length bs) in
      let long : length (delimited bs) ≡ length head + length bs = length-append head bs in
      ground (
        arith,
        long,
        (pb_encode_varint-Writes (length bs) small).fits m d size written small',
        w.fits (store m d head) (d + length head) size (written + length head) small',
        store-append head bs m d,
      );
  counts = λ c written small'.
      let head = base128 9 (length bs) in
      let long : length (delimited bs) ≡ length head + length bs = length-append head bs in
      ground (arith, long, (pb_encode_varint-Writes (length bs) small).counts c written);
  overflows = λ m d size written le over sum s' h.
      packed_overflows count step p func bs m d size written small w le over sum s' h;
}

-- The size is that of the bytes, by the multiplication as by the counting.
packed_counted :
    (null : Cursor) (field : Field) (count p : ℕ) (func : ℕ → Encoder Cursor) (bs : List ℕ)
    (s : Ostream Cursor)
    → Writes (encode_items count func field.data_size p) bs
    → length bs < 2 ^ 64
    → (pb_ltype field.type ≡ LType.fixed32 → length bs ≡ 4 * count)
    → (pb_ltype field.type ≡ LType.fixed64 → length bs ≡ 8 * count)
    → encode_packed null field count func p s
      ≡ write_packed count func field.data_size p (length bs) s
unfolding pb_ostream_sizing
packed_counted null field count p func bs s w small four eight =
    elim (Bool-cases (pb_ltype field.type == LType.fixed32)) [
      | inl is_four ↦
          let size : u64 (4 * count) ≡ length bs = omega (arith, four (ground arith)) in
          rw is_four (ap (λ (n : ℕ). write_packed count func field.data_size p n s) size)
      | inr not_four ↦ elim (Bool-cases (pb_ltype field.type == LType.fixed64)) [
        | inl is_eight ↦
            let size : u64 (8 * count) ≡ length bs = omega (arith, eight (ground arith)) in
            rw (not_four, is_eight)
              (ap (λ (n : ℕ). write_packed count func field.data_size p n s) size)
        | inr not_eight ↦
            let counted : encode_items count func field.data_size p (counting null 0)
                ≡ ok tt (counting null (length bs)) =
              w.counts null 0 (omega arith)
              ∙ ap (λ (n : ℕ). ok tt (counting null n)) (omega arith) in
            rw (not_four, not_eight, counted) refl
      ]
    ]

pub encode_packed-Writes :
    (null : Cursor) (field : Field) (count p : ℕ) (func : ℕ → Encoder Cursor) (bs : List ℕ)
    → Writes (encode_items count func field.data_size p) bs
    → length bs < 2 ^ 64
    → (pb_ltype field.type ≡ LType.fixed32 → length bs ≡ 4 * count)
    → (pb_ltype field.type ≡ LType.fixed64 → length bs ≡ 8 * count)
    → Writes (encode_packed null field count func p) (delimited bs)
encode_packed-Writes null field count p func bs w small four eight =
    subst (λ (f : Encoder Cursor). Writes f (delimited bs))
      (sym (fun_ext (λ s. packed_counted null field count p func bs s w small four eight)))
      (write_packed-Writes count field.data_size p func bs small w)

-- Entries that all have bytes.
items_some :
    (count step p : ℕ) (item : ℕ → Bytes)
    → ((q : ℕ) → item q ≢ none)
    → items_bytes count item step p ≢ none
unfolding items_bytes
items_some zero step p item h e = absurd (cc)
items_some (suc count) step p item h e =
    both_some (item p) (items_bytes count item step (u64 (p + step))) (h p)
      (items_some count step (u64 (p + step)) item h) e

-- What cannot be counted is not written; numbers of fixed size always have bytes.
pub encode_packed-Refuses :
    (null : Cursor) (field : Field) (count p : ℕ) (func : ℕ → Encoder Cursor) (item : ℕ → Bytes)
    → ((q : ℕ) → Implements (func q) (item q))
    → items_bytes count item field.data_size p ≡ none
    → (pb_ltype field.type ≡ LType.fixed32 → (q : ℕ) → item q ≢ none)
    → (pb_ltype field.type ≡ LType.fixed64 → (q : ℕ) → item q ≢ none)
    → Refuses (encode_packed null field count func p)
encode_packed-Refuses null field count p func item h e four eight s s' ok_there =
    let step = field.data_size in
    elim (Bool-cases (pb_ltype field.type == LType.fixed32)) [
      | inl fixed32 ↦ absurd (items_some count step p item (four (ground arith)) e)
      | inr e1 ↦ elim (Bool-cases (pb_ltype field.type == LType.fixed64)) [
        | inl fixed64 ↦ absurd (items_some count step p item (eight (ground arith)) e)
        | inr e2 ↦ elim (Outcome-cases (encode_items count func step p (pb_ostream_sizing null))) [
          | inl (a, t, counted) ↦
              (encode_items-Implements count step p func item h).refuses e (pb_ostream_sizing null)
                t counted
          | inr (inl (t, counted)) ↦ absurd (ground (arith, e1, e2, counted, ok_there))
          | inr (inr counted) ↦ absurd (ground (arith, e1, e2, counted, ok_there))
        ]
      ]
    ]
