-- ===== src/Pb/EncodeMessage.antt =====
-- Encoding a message: FLChat/Pods/nanopb/pb_encode.c from `encode_array` to `pb_get_encoded_size`,
-- and `pb_enc_submessage`. The structure stands in the memory `m`, and the encoding does not change
-- it.
use flchat.Base.{
  ℕ, zero, suc, ◌+◌, Bool, true, false, not, ◌&&◌, ◌||◌, Option, none, some, List, [], ◌∷◌, length,
  ltb, leb, ◌==◌, if◌then◌else◌,
}
use flchat.Base.Memory.{Memory, load_word, u64}
use flchat.Pb.{Error, Field, pb_ltype, pb_htype, pb_atype, Outcome, ok, err, stuck, ◌>>◌, return}
use flchat.Pb.{
  array_max_size_exceeded, missing_required_field, invalid_field_type, invalid_field_descriptor,
  callback_error,
}
use flchat.Pb.AType
use flchat.Pb.Encode.{pb_encode_tag, pb_encode_tag_for_field}
use flchat.Pb.EncodeField.{
  pb_enc_varint, pb_enc_uvarint, pb_enc_svarint, pb_enc_fixed32, pb_enc_fixed64, pb_enc_bytes,
  pb_enc_string, pb_enc_fixed_length_bytes,
}
use flchat.Pb.HType
use flchat.Pb.Iter.{FieldIter, field_at, pb_field_iter_begin, pb_field_iter_next}
use flchat.Pb.LType
use flchat.Pb.Ostream.{Ostream, Encoder, fail, pb_write, pb_ostream_sizing}
use flchat.Pb.WireType
use flchat.Pb.EncodeArray.{undefined, encode_items, encode_packed, pb_encode_submessage}
use flchat.Pb.Program.{Program, pointer_at}
use flchat.Pb.Proto3.{pb_check_proto3_default_value}

module _ {S : Type 0} (p : Program S) (m : Memory) where
  -- PB_ENCODERS. An LTYPE without an encoder is undefined.
  unfoldable pub pb_encoder : (List Field → ℕ → Encoder S) → Field → ℕ → Encoder S
  pb_encoder encode field src =
      let ltype = pb_ltype field.type in
      if ltype == LType.varint
      then pb_enc_varint m field src
      else if ltype == LType.uvarint
      then pb_enc_uvarint m field src
      else if ltype == LType.svarint
      then pb_enc_svarint m field src
      else if ltype == LType.fixed32
      then pb_enc_fixed32 m field src
      else if ltype == LType.fixed64
      then pb_enc_fixed64 m field src
      else if ltype == LType.bytes
      then pb_enc_bytes m field src
      else if ltype == LType.string
      then pb_enc_string m field src
      else if ltype == LType.submessage
      then (if field.ptr == 0
          then fail invalid_field_descriptor
          else pb_encode_submessage p.null (encode (p.descriptors field.ptr) src))
      else if ltype == LType.fixed_length_bytes
      then pb_enc_fixed_length_bytes m field src
      else undefined

  -- The address of the data of an entry: pointer-type strings and bytes are pointers once more.
  abbrev pub entry_data : Field → ℕ → ℕ
  entry_data field q =
      if pb_atype field.type == AType.pointer
        && (pb_ltype field.type == LType.string || pb_ltype field.type == LType.bytes)
      then pointer_at m q
      else q

  unfoldable pub encode_array : (Field → ℕ → Encoder S) → Field → ℕ → ℕ → Encoder S
  encode_array func field p_data count =
      if count == 0
      then return tt
      else if not (pb_atype field.type == AType.pointer) && ltb field.array_size count
      then fail array_max_size_exceeded
      else if leb (pb_ltype field.type) LType.last_packable
      then (pb_encode_tag WireType.string field.tag
          >> encode_packed p.null field count (func field) p_data)
      else encode_items count
          (λ q. pb_encode_tag_for_field field >> func field (entry_data field q)) field.data_size
          p_data

  abbrev pub tag_and_data : (Field → ℕ → Encoder S) → Field → ℕ → Encoder S
  tag_and_data func field p_data = pb_encode_tag_for_field field >> func field p_data

  -- Whether an optional field is there: by its flag, by its pointer, or by its value.
  abbrev pub is_present : ℕ → Field → ℕ → Option Bool
  is_present depth field p_data =
      if not (field.size_offset == 0)
      then some (not (m (u64 (p_data + field.size_offset)) == 0))
      else if pb_atype field.type == AType.pointer
      then some (not (pointer_at m p_data == 0))
      else elim (pb_check_proto3_default_value depth p.descriptors m field p_data) [
        | none ↦ none
        | some default ↦ some (not default)
      ]

  abbrev pub encode_optional : Option Bool → Encoder S → Encoder S
  encode_optional none encode s = stuck
  encode_optional (some true) encode s = encode s
  encode_optional (some false) encode s = ok tt s

  -- The switch of `encode_basic_field`, where `p_item` is the address of the data. A oneof without
  -- `size_offset` is undefined.
  abbrev pub encode_present : ℕ → (Field → ℕ → Encoder S) → Field → ℕ → ℕ → Encoder S
  encode_present depth func field p_data p_item =
      let p_size = u64 (p_data + field.size_offset) in
      if pb_htype field.type == HType.required
      then (if p_item == 0 then fail missing_required_field else tag_and_data func field p_item)
      else if pb_htype field.type == HType.optional
      then encode_optional (is_present depth field p_data) (tag_and_data func field p_item)
      else if pb_htype field.type == HType.repeated
      then encode_array func field p_item
          (if field.size_offset == 0 then field.array_size else load_word m p_size 4)
      else if field.size_offset == 0
      then undefined
      else if load_word m p_size 4 == field.tag
      then tag_and_data func field p_item
      else return tt

  unfoldable pub encode_basic_field : ℕ → (Field → ℕ → Encoder S) → Field → ℕ → Encoder S
  encode_basic_field depth func field p_data =
      encode_present depth func field p_data
        (if pb_atype field.type == AType.pointer then pointer_at m p_data else p_data)

  -- An encoder with the error that its caller reports.
  abbrev pub or_fail : Error → Encoder S → Encoder S
  or_fail error encode s = elim (encode s) [
    | ok _ s' ↦ ok tt s'
    | err s' ↦ fail error s'
    | stuck ↦ stuck
  ]

  -- `pData` points at a `pb_callback_t`: the function, 0 for NULL, and `arg`.
  unfoldable pub encode_callback_field : Field → ℕ → Encoder S
  encode_callback_field field p_data =
      let encode = pointer_at m p_data in
      if encode == 0
      then return tt
      else or_fail callback_error (p.encode_callback encode field (u64 (p_data + 8)))

  unfoldable pub encode_field : ℕ → (Field → ℕ → Encoder S) → Field → ℕ → Encoder S
  encode_field depth func field p_data =
      let atype = pb_atype field.type in
      if atype == AType.static
      then encode_basic_field depth func field p_data
      else if atype == AType.pointer
      then encode_basic_field depth func field p_data
      else if atype == AType.callback
      then encode_callback_field field p_data
      else fail invalid_field_type

  -- A `pb_extension_t` at `extension`: `type`, `dest` at 8 and `next` at 16. In its type, `encode`
  -- stands at 8 and `arg` at 16.
  unfoldable pub default_extension_encoder : ℕ → (Field → ℕ → Encoder S) → ℕ → Encoder S
  default_extension_encoder depth func extension =
      let field = field_at (p.descriptors (pointer_at m (pointer_at m extension + 16))) 0 in
      let dest = u64 (extension + 8) in
      encode_field depth func field
        (if pb_atype field.type == AType.pointer then dest else pointer_at m dest)

  abbrev pub extension_encoder : ℕ → (Field → ℕ → Encoder S) → ℕ → Encoder S
  extension_encoder depth func extension =
      let encode = pointer_at m (pointer_at m extension + 8) in
      if encode == 0
      then default_extension_encoder depth func extension
      else p.encode_extension encode extension

  -- The loop over the linked list of extensions, which has at most `rounds` of them.
  unfoldable pub encode_extensions : ℕ → ℕ → (Field → ℕ → Encoder S) → ℕ → Encoder S
  encode_extensions zero depth func extension s = stuck
  encode_extensions (suc rounds) depth func extension s = elim (extension == 0) [
    | true ↦ ok tt s
    | false ↦
        (extension_encoder depth func extension
            >> encode_extensions rounds depth func (pointer_at m (u64 (extension + 16))))
          s
  ]

  unfoldable pub encode_extension_field : ℕ → ℕ → (Field → ℕ → Encoder S) → ℕ → Encoder S
  encode_extension_field rounds depth func p_data =
      encode_extensions rounds depth func (pointer_at m p_data)

  -- The body of the loop of `pb_encode`.
  abbrev pub encode_at : ℕ → ℕ → (Field → ℕ → Encoder S) → FieldIter → Encoder S
  encode_at rounds depth func iter =
      let field = field_at iter.start iter.pos in
      if pb_ltype field.type == LType.extension
      then encode_extension_field rounds depth func iter.p_data
      else encode_field depth func field iter.p_data

  -- The loop of `pb_encode`, from the iterator on.
  unfoldable pub encode_fields : ℕ → (FieldIter → Encoder S) → FieldIter → Encoder S
  encode_fields zero body iter s = stuck
  encode_fields (suc left) body iter s =
      (body iter
          >> (let later = pb_field_iter_next iter in
              elim later.1 [ true ↦ encode_fields left body later.0 | false ↦ return tt ]))
        s

  -- `depth` bounds the nesting of submessages, and `rounds` the number of extensions in a list.
  unfoldable pub pb_encode : ℕ → ℕ → List Field → ℕ → Encoder S
  pb_encode zero rounds fields src_struct s = stuck
  pb_encode (suc depth) rounds fields src_struct s =
      let begun = pb_field_iter_begin fields src_struct in
      let func = pb_encoder (pb_encode depth rounds) in
      (if begun.1
          then encode_fields (suc (length fields)) (encode_at rounds depth func) begun.0
          else return tt)
        s

  unfoldable pub pb_encode_delimited : ℕ → ℕ → List Field → ℕ → Encoder S
  pb_encode_delimited depth rounds fields src_struct =
      pb_encode_submessage p.null (pb_encode depth rounds fields src_struct)

  unfoldable pub pb_encode_nullterminated : ℕ → ℕ → List Field → ℕ → Encoder S
  pb_encode_nullterminated depth rounds fields src_struct =
      pb_encode depth rounds fields src_struct >> pb_write (0 ∷ []) 1

  -- `*size`, where the result is true.
  unfoldable pub pb_get_encoded_size : ℕ → ℕ → List Field → ℕ → Outcome (Ostream S) ℕ
  pb_get_encoded_size depth rounds fields src_struct =
      elim (pb_encode depth rounds fields src_struct (pb_ostream_sizing p.null)) [
        | ok _ stream ↦ ok stream.bytes_written stream
        | err stream ↦ err stream
        | stuck ↦ stuck
      ]
