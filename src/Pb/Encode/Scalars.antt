-- ===== src/Pb/Encode/Scalars.antt =====
-- The bytes that the scalar encoders write.
use flchat.Base.{
  ℕ, ◌+◌, ◌-◌, ◌*◌, ◌/◌, ◌^◌, ◌≤◌, ◌<◌, ◌≡◌, ◌≢◌, sym, subst, ap, arith, List, ◌++◌, length, leb,
  ltb, if◌then◌else◌,
}
use flchat.Base.Bits.{and_low_byte, or_wire_type}
use flchat.Base.Memory.{to_le}
use flchat.Pb.{Field, pb_ltype}
use flchat.Pb.LType
use flchat.Pb.WireType
use flchat.Pb.Encode.{
  pb_encode_varint, pb_encode_svarint, pb_encode_fixed32, pb_encode_fixed64, pb_encode_tag,
  pb_encode_tag_for_field, pb_encode_string,
}
use flchat.Pb.Encode.Shape.{base128, pb_encode_varint-base128}
use flchat.Pb.Encode.Writes.{Writes, pb_write-Writes, Writes-then}
use flchat.Pb.Ostream.{Cursor, Encoder, pb_write}

pub pb_encode_varint-Writes : (v : ℕ) → v < 2 ^ 64 → Writes (pb_encode_varint v) (base128 9 v)
pb_encode_varint-Writes v h = rw (pb_encode_varint-base128 {S = Cursor} v h) (pb_write-Writes _)

-- Of an `int64_t`, given by its pattern: 0, -1, 1, -2 become 0, 1, 2, 3.
unfoldable pub zigzag : ℕ → ℕ
zigzag v = if ltb v (2 ^ 63) then 2 * v else 2 * (2 ^ 64 - v) - 1

pub zigzag-lt : (v : ℕ) → v < 2 ^ 64 → zigzag v < 2 ^ 64
unfolding zigzag
zigzag-lt v h = ground arith

pub pb_encode_svarint-Writes :
    (v : ℕ) → v < 2 ^ 64 → Writes (pb_encode_svarint v) (base128 9 (zigzag v))
pb_encode_svarint-Writes v h =
    subst (λ (f : Encoder Cursor). Writes f (base128 9 (zigzag v))) (sym same)
      (pb_encode_varint-Writes (zigzag v) (zigzag-lt v h))
  where
    same : pb_encode_svarint {S = Cursor} v ≡ pb_encode_varint (zigzag v)
    same = unfold pb_encode_svarint zigzag in ground arith

fixed32_bytes : (v : ℕ) → pb_encode_fixed32 {S = Cursor} v ≡ pb_write (to_le 4 v) 4
unfolding pb_encode_fixed32 to_le
fixed32_bytes v = ground (
  arith,
  and_low_byte v,
  and_low_byte (v / 2 ^ 8),
  and_low_byte (v / 2 ^ 16),
  and_low_byte (v / 2 ^ 24),
)

pub pb_encode_fixed32-Writes : (v : ℕ) → Writes (pb_encode_fixed32 v) (to_le 4 v)
pb_encode_fixed32-Writes v = rw (fixed32_bytes v) (unfold to_le in pb_write-Writes (to_le 4 v))

fixed64_bytes : (v : ℕ) → pb_encode_fixed64 {S = Cursor} v ≡ pb_write (to_le 8 v) 8
unfolding pb_encode_fixed64 to_le
fixed64_bytes v = ground (
  arith,
  and_low_byte v,
  and_low_byte (v / 2 ^ 8),
  and_low_byte (v / 2 ^ 16),
  and_low_byte (v / 2 ^ 24),
  and_low_byte (v / 2 ^ 32),
  and_low_byte (v / 2 ^ 40),
  and_low_byte (v / 2 ^ 48),
  and_low_byte (v / 2 ^ 56),
)

pub pb_encode_fixed64-Writes : (v : ℕ) → Writes (pb_encode_fixed64 v) (to_le 8 v)
pb_encode_fixed64-Writes v = rw (fixed64_bytes v) (unfold to_le in pb_write-Writes (to_le 8 v))

pub pb_encode_tag-Writes :
    (wiretype number : ℕ)
    → wiretype < 8
    → number < 2 ^ 32
    → Writes (pb_encode_tag wiretype number) (base128 9 (8 * number + wiretype))
pb_encode_tag-Writes wiretype number hw hn =
    subst (λ (f : Encoder Cursor). Writes f (base128 9 (8 * number + wiretype))) (sym same)
      (pb_encode_varint-Writes (8 * number + wiretype) (omega arith))
  where
    same : pb_encode_tag {S = Cursor} wiretype number ≡ pb_encode_varint (8 * number + wiretype)
    same =
        unfold pb_encode_tag in
        ap (λ (t : ℕ). pb_encode_varint {S = Cursor} t)
          (ground (arith, or_wire_type number wiretype hw))

-- The wire type of a data type, where it has one.
unfoldable pub wire_type_of : ℕ → ℕ
wire_type_of ltype =
    if leb ltype LType.svarint
    then WireType.varint
    else if leb ltype LType.fixed32
    then WireType.bit32
    else if leb ltype LType.fixed64
    then WireType.bit64
    else WireType.string

pub pb_encode_tag_for_field-Writes :
    (field : Field)
    → field.tag < 2 ^ 32
    → pb_ltype field.type ≤ 9
    → pb_ltype field.type ≢ LType.extension
    → Writes
        (pb_encode_tag_for_field field)
        (base128 9 (8 * field.tag + wire_type_of (pb_ltype field.type)))
pb_encode_tag_for_field-Writes field ht hl ne =
    subst (λ (f : Encoder Cursor). Writes f (base128 9 (8 * field.tag + type))) (sym same)
      (pb_encode_tag-Writes type field.tag small ht)
  where
    type : ℕ
    type = wire_type_of (pb_ltype field.type)

    small : type < 8
    small = unfold wire_type_of in ground arith

    same : pb_encode_tag_for_field {S = Cursor} field ≡ pb_encode_tag type field.tag
    same = unfold pb_encode_tag_for_field wire_type_of in ground arith

pub pb_encode_string-Writes :
    (bs : List ℕ)
    → length bs < 2 ^ 64
    → Writes (pb_encode_string bs (length bs)) (base128 9 (length bs) ++ bs)
unfolding pb_encode_string
pb_encode_string-Writes bs h =
    Writes-then (pb_encode_varint-Writes (length bs) h) (pb_write-Writes bs)
