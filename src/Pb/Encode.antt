-- ===== src/Pb/Encode.antt =====
-- Writing the wire format: the helper functions of FLChat/Pods/nanopb/pb_encode.c from
-- `pb_encode_varint` to `pb_encode_string`.
pub mod Shape
pub mod Writes
pub mod Scalars
pub mod Confined
use flchat.Base.{
  ℕ, zero, suc, ◌*◌, ◌/◌, ◌^◌, bit_and, bit_or, true, false, List, [], ◌∷◌, leb, ◌==◌,
  if◌then◌else◌, length,
}
use flchat.Base.Memory.{u64, not64}
use flchat.Pb.{Field, pb_ltype, ◌>>◌, invalid_field_type}
use flchat.Pb.LType
use flchat.Pb.WireType
use flchat.Pb.Ostream.{Encoder, fail, pb_write}

-- `buffer` of `pb_encode_varint` when its loop ends: every byte has the top bit set. The value falls
-- to 0 in ten rounds.
unfoldable pub varint_groups : ℕ → ℕ → List ℕ
varint_groups zero value = []
varint_groups (suc fuel) value = elim (value == 0) [
  | true ↦ []
  | false ↦ bit_or (bit_and value 0x7f) 0x80 ∷ varint_groups fuel (value / 2 ^ 7)
]

-- `buffer[i-1] &= 0x7F`
unfoldable pub clear_last : List ℕ → List ℕ
clear_last [] = []
clear_last (b ∷ []) = bit_and b 0x7f ∷ []
clear_last (b ∷ c ∷ bs) = b ∷ clear_last (c ∷ bs)

module _ {S : Type 0} where
  unfoldable pub pb_encode_varint : ℕ → Encoder S
  pb_encode_varint value =
      let buffer = clear_last (varint_groups 10 value) in
      if leb value 0x7f then pb_write (value ∷ []) 1 else pb_write buffer (length buffer)

  -- The value is an `int64_t`, as its pattern.
  unfoldable pub pb_encode_svarint : ℕ → Encoder S
  pb_encode_svarint value =
      if leb (2 ^ 63) value
      then pb_encode_varint (not64 (u64 (value * 2)))
      else pb_encode_varint (u64 (value * 2))

  unfoldable pub pb_encode_fixed32 : ℕ → Encoder S
  pb_encode_fixed32 val =
      let bytes : List ℕ =
        bit_and val 0xff
        ∷ bit_and (val / 2 ^ 8) 0xff
        ∷ bit_and (val / 2 ^ 16) 0xff
        ∷ bit_and (val / 2 ^ 24) 0xff
        ∷ [] in
      pb_write bytes 4

  unfoldable pub pb_encode_fixed64 : ℕ → Encoder S
  pb_encode_fixed64 val =
      let bytes : List ℕ =
        bit_and val 0xff
        ∷ bit_and (val / 2 ^ 8) 0xff
        ∷ bit_and (val / 2 ^ 16) 0xff
        ∷ bit_and (val / 2 ^ 24) 0xff
        ∷ bit_and (val / 2 ^ 32) 0xff
        ∷ bit_and (val / 2 ^ 40) 0xff
        ∷ bit_and (val / 2 ^ 48) 0xff
        ∷ bit_and (val / 2 ^ 56) 0xff
        ∷ [] in
      pb_write bytes 8

  unfoldable pub pb_encode_tag : ℕ → ℕ → Encoder S
  pb_encode_tag wiretype field_number =
      pb_encode_varint (bit_or (u64 (field_number * 2 ^ 3)) wiretype)

  unfoldable pub pb_encode_tag_for_field : Field → Encoder S
  pb_encode_tag_for_field field =
      let ltype = pb_ltype field.type in
      if ltype == LType.varint
      then pb_encode_tag WireType.varint field.tag
      else if ltype == LType.uvarint
      then pb_encode_tag WireType.varint field.tag
      else if ltype == LType.svarint
      then pb_encode_tag WireType.varint field.tag
      else if ltype == LType.fixed32
      then pb_encode_tag WireType.bit32 field.tag
      else if ltype == LType.fixed64
      then pb_encode_tag WireType.bit64 field.tag
      else if ltype == LType.bytes
      then pb_encode_tag WireType.string field.tag
      else if ltype == LType.string
      then pb_encode_tag WireType.string field.tag
      else if ltype == LType.submessage
      then pb_encode_tag WireType.string field.tag
      else if ltype == LType.fixed_length_bytes
      then pb_encode_tag WireType.string field.tag
      else fail invalid_field_type

  unfoldable pub pb_encode_string : List ℕ → ℕ → Encoder S
  pb_encode_string buffer size = pb_encode_varint size >> pb_write buffer size
