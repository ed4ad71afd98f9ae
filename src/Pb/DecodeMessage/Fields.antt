-- ===== src/Pb/DecodeMessage/Fields.antt =====
-- One field of a message: `decode_field` of FLChat/Pods/nanopb/pb_decode.c, its callbacks, unions and
-- extensions, and PB_DECODERS.
use flchat.Base.{
  ℕ, zero, suc, ◌+◌, true, false, not, ◌&&◌, ◌||◌, none, some, List, length, ◌==◌, if◌then◌else◌,
}
use flchat.Base.Memory.{poke, u64}
use flchat.Pb.{
  Field, pb_ltype, pb_htype, pb_atype, ok, err, stuck, ◌>>=◌, ◌>>◌, return, callback_failed,
  invalid_field_type, invalid_field_descriptor, invalid_union_tag, iterator_error,
}
use flchat.Pb.AType
use flchat.Pb.Decode.{pb_make_string_substream, pb_skip_field, read_raw_value}
use flchat.Pb.DecodeField.{
  Filler, on_stream, reject, pb_dec_varint, pb_dec_uvarint, pb_dec_svarint, pb_dec_fixed32,
  pb_dec_fixed64, pb_dec_bytes, pb_dec_string, pb_dec_fixed_length_bytes,
}
use flchat.Pb.DecodeMessage.Defaults.{pb_message_set_to_defaults}
use flchat.Pb.DecodeMessage.Pointer.{decode_pointer_field}
use flchat.Pb.DecodeMessage.Release.{pb_release_single_field}
use flchat.Pb.DecodeMessage.Services.{
  Services, Step, on_memory, iter_from_extension, extension_fields,
}
use flchat.Pb.DecodeMessage.Static.{decode_static_field, size_at}
use flchat.Pb.DecodeMessage.Substream.{closing}
use flchat.Pb.HType
use flchat.Pb.Istream.{Istream, pb_istream_from_buffer}
use flchat.Pb.Iter.{FieldIter, field_at, pb_field_iter_find}
use flchat.Pb.LType
use flchat.Pb.Program.{pointer_at}
use flchat.Pb.WireType

module _ {S : Type 0} (p : Services) (rounds : ℕ) where
  -- The loop over the callback for a string. C repeats it as long as bytes are left, here at most
  -- `rounds` times.
  unfoldable pub callback_loop : ℕ → Filler S (Unit {0}) → Istream S → Filler S (Unit {0})
  callback_loop zero decode parent w = stuck
  callback_loop (suc rounds) decode parent w = elim (decode w) [
    | err w' ↦ reject callback_failed (record w' { stream = parent })
    | stuck ↦ stuck
    | ok _ w' ↦ elim (w'.stream.bytes_left == 0) [
      | true ↦ closing parent (ok tt w')
      | false ↦ callback_loop rounds decode parent w'
    ]
  ]

  -- The callback for a number, on a stream over a copy of its bytes.
  abbrev pub on_copy : Filler (List ℕ) (Unit {0}) → List ℕ → Filler S (Unit {0})
  on_copy decode buffer w =
      elim (decode
        (record { stream = pb_istream_from_buffer buffer (length buffer); memory = w.memory })) [
          | ok _ w' ↦ ok tt (record w { memory = w'.memory })
          | err w' ↦ err (record w { memory = w'.memory })
          | stuck ↦ stuck
        ]

  -- `pData` points at a `pb_callback_t`: the function, 0 for NULL, and `arg`.
  unfoldable pub decode_callback_field : ℕ → FieldIter → Filler S (Unit {0})
  decode_callback_field wire_type iter w =
      let field = field_at iter.start iter.pos in
      let decode = pointer_at w.memory iter.p_data in
      let arg = u64 (iter.p_data + 8) in
      (if iter.p_data == 0 || decode == 0
          then on_stream (pb_skip_field wire_type)
          else if wire_type == WireType.string
          then (on_stream pb_make_string_substream >>= λ substream w'.
              callback_loop rounds
                (λ v. p.decode_callback S (pointer_at v.memory iter.p_data) field arg v) w'.stream
                (record w' { stream = substream }))
          else (on_stream (read_raw_value wire_type 10) >>= λ buffer.
              on_copy (p.decode_callback (List ℕ) decode field arg) buffer))
        w

  -- The iterator stands where it was before, or at the same field after the search.
  unfoldable pub pb_release_union_field : (FieldIter → Step) → FieldIter → Filler S FieldIter
  pb_release_union_field release_single iter w =
      let old_tag = size_at w iter.p_size in
      let new_tag = (field_at iter.start iter.pos).tag in
      if old_tag == 0
      then ok iter w
      else if old_tag == new_tag
      then ok iter w
      else elim (pb_field_iter_find iter old_tag) [
        | none ↦ stuck
        | some (old, false) ↦ reject invalid_union_tag w
        | some (old, true) ↦
            (on_memory (release_single old) >> elim (pb_field_iter_find old new_tag) [
              | none ↦ λ w'. stuck
              | some (new, false) ↦ reject iterator_error
              | some (new, true) ↦ return new
            ])
              w
      ]

  -- `decode` and `decode_noinit` decode a submessage: `pb_decode` and `pb_decode_noinit`.
  module _ (depth : ℕ) (decode decode_noinit : List Field → ℕ → Filler S (Unit {0})) where
    unfoldable pub pb_dec_submessage : Field → ℕ → Filler S (Unit {0})
    pb_dec_submessage field dest = on_stream pb_make_string_substream >>= λ substream w.
        if field.ptr == 0
        then reject invalid_field_descriptor w
        else closing w.stream (
            (if pb_htype field.type == HType.repeated
                then decode (p.descriptors field.ptr) dest
                else decode_noinit (p.descriptors field.ptr) dest)
              (record w { stream = substream }))

    -- PB_DECODERS. An LTYPE without a decoder is undefined.
    unfoldable pub pb_decoder : Field → ℕ → Filler S (Unit {0})
    pb_decoder field dest =
        let ltype = pb_ltype field.type in
        if ltype == LType.varint
        then pb_dec_varint field dest
        else if ltype == LType.uvarint
        then pb_dec_uvarint field dest
        else if ltype == LType.svarint
        then pb_dec_svarint field dest
        else if ltype == LType.fixed32
        then pb_dec_fixed32 field dest
        else if ltype == LType.fixed64
        then pb_dec_fixed64 field dest
        else if ltype == LType.bytes
        then pb_dec_bytes p.pb_realloc field dest
        else if ltype == LType.string
        then pb_dec_string p.pb_realloc field dest
        else if ltype == LType.submessage
        then pb_dec_submessage field dest
        else if ltype == LType.fixed_length_bytes
        then pb_dec_fixed_length_bytes field dest
        else λ w. stuck

    -- The iterator is the caller's, which the release of a union moves.
    unfoldable pub decode_field : ℕ → FieldIter → Filler S FieldIter
    decode_field wire_type iter =
        let defaults = λ (ptr : ℕ). pb_message_set_to_defaults p rounds depth (p.descriptors ptr) in
        let release_single = pb_release_single_field p rounds depth in
        (if pb_htype (field_at iter.start iter.pos).type == HType.oneof
          then pb_release_union_field release_single iter
          else return iter)
        >>= λ iter'.
            let atype = pb_atype (field_at iter'.start iter'.pos).type in
            (if atype == AType.static
              then decode_static_field pb_decoder defaults wire_type iter'
              else if atype == AType.pointer
              then decode_pointer_field p pb_decoder defaults release_single wire_type iter'
              else if atype == AType.callback
              then decode_callback_field wire_type iter'
              else reject invalid_field_type)
            >> return iter'

    unfoldable pub default_extension_decoder : ℕ → ℕ → ℕ → Filler S (Unit {0})
    default_extension_decoder extension tag wire_type w =
        if not ((field_at (extension_fields p w.memory extension) 0).tag == tag)
        then ok tt w
        else let iter = iter_from_extension p w.memory extension in
          (decode_field wire_type iter >> return tt)
            (record w { memory = poke w.memory (u64 (extension + 24)) 1 })

    abbrev pub extension_decoder : ℕ → ℕ → ℕ → Filler S (Unit {0})
    extension_decoder extension tag wire_type w =
        let decode = pointer_at w.memory (pointer_at w.memory extension) in
        if decode == 0
        then default_extension_decoder extension tag wire_type w
        else p.decode_extension S decode extension tag wire_type w

    -- The loop over the linked list of extensions until one has taken bytes from the `pos` that
    -- were left.
    unfoldable pub extension_loop : ℕ → ℕ → ℕ → ℕ → ℕ → Filler S (Unit {0})
    extension_loop zero pos extension tag wire_type w = stuck
    extension_loop (suc rounds) pos extension tag wire_type w =
        elim (not (extension == 0) && pos == w.stream.bytes_left) [
          | false ↦ ok tt w
          | true ↦
              (extension_decoder extension tag wire_type >> λ w'.
              extension_loop rounds pos (pointer_at w'.memory (u64 (extension + 16))) tag wire_type
                w')
                w
        ]

    unfoldable pub decode_extension : ℕ → ℕ → FieldIter → Filler S (Unit {0})
    decode_extension tag wire_type iter w =
        extension_loop rounds w.stream.bytes_left (pointer_at w.memory iter.p_data) tag wire_type w
