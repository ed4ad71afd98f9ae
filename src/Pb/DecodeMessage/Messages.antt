-- ===== src/Pb/DecodeMessage/Messages.antt =====
-- All fields of a message: `pb_decode_noinit`, `pb_decode` and their variants, of
-- FLChat/Pods/nanopb/pb_decode.c.
use flchat.Base.{
  ℕ, zero, suc, ◌+◌, ◌/◌, ◌%◌, ◌-◌, ◌^◌, bit_or, Bool, true, false, not, ◌&&◌, ◌||◌, Option, none,
  some, List, length, ltb, ◌==◌, if◌then◌else◌,
}
use flchat.Base.Memory.{Memory, poke, u32}
use flchat.Pb.{
  Field, pb_htype, ok, err, stuck, ◌>>=◌, ◌>>◌, return, missing_required_field,
  wrong_size_for_fixed_count_field,
}
use flchat.Pb.Decode.{pb_decode_tag, pb_skip_field}
use flchat.Pb.DecodeField.{Work, Filler, on_stream, reject}
use flchat.Pb.DecodeMessage.Defaults.{pb_message_set_to_defaults}
use flchat.Pb.DecodeMessage.Fields.{decode_field, decode_extension}
use flchat.Pb.DecodeMessage.Release.{pb_release}
use flchat.Pb.DecodeMessage.Services.{Services, on_memory, find_extension_field}
use flchat.Pb.DecodeMessage.Static.{set_size, size_at}
use flchat.Pb.DecodeMessage.Substream.{within}
use flchat.Pb.HType
use flchat.Pb.Iter.{
  FieldIter, field_at, pb_field_iter_begin, pb_field_iter_next, pb_field_iter_find,
}

-- PB_MAX_REQUIRED_FIELDS
abbrev pub max_required_fields : ℕ
max_required_fields = 64

-- The local variables of `pb_decode_noinit`, without `fixed_count_size`, which has an address.
-- `fixed_count_field` is a position, and `fields_seen` an array of 32-bit words.
pub record Locals : Type 0 where
  pub iter : FieldIter
  pub extension_range_start : ℕ
  pub fixed_count_field : Option ℕ
  pub fields_seen : Memory

-- The bit of a required field.
abbrev pub mark_seen : FieldIter → Memory → Memory
mark_seen iter seen =
    let index = iter.required_field_index in
    if pb_htype (field_at iter.start iter.pos).type == HType.required
      && ltb index max_required_fields
    then poke seen (index / 32) (bit_or (seen (index / 32)) (u32 (2 ^ (index % 32))))
    else seen

-- The loop to the last field: its index of required fields, its type, and the iterator behind it;
-- `none` is out of fuel.
unfoldable pub seek_end : ℕ → FieldIter → Option (ℕ × ℕ × FieldIter)
seek_end zero iter = none
seek_end (suc fuel) iter =
    let later = pb_field_iter_next iter in
    elim later.1 [
      | true ↦ seek_end fuel later.0
      | false ↦ some (iter.required_field_index, (field_at iter.start iter.pos).type, later.0)
    ]

-- `req_field_count` from what the loop leaves.
abbrev pub req_field_count : ℕ × ℕ × FieldIter → ℕ
req_field_count (count, last_type, iter) =
    let all =
      if pb_htype last_type == HType.required && not ((field_at iter.start iter.pos).tag == 0)
      then count + 1
      else count in
    if ltb max_required_fields all then max_required_fields else all

-- Whether the first `n` words have all bits.
unfoldable pub whole_words : ℕ → Memory → Bool
whole_words zero seen = true
whole_words (suc n) seen = whole_words n seen && seen n == 2 ^ 32 - 1

-- Whether the bits of the first `count` required fields are all there.
unfoldable pub all_seen : ℕ → Memory → Bool
all_seen count seen =
    whole_words (count / 32) seen
    && (count % 32 == 0 || seen (count / 32) == (2 ^ 32 - 1) / 2 ^ (32 - count % 32))

module _ {S : Type 0} (p : Services) (rounds : ℕ) where
  -- Whether all elements of the last fixed count field were there.
  abbrev pub check_fixed_count : ℕ → Locals → Filler S (Unit {0})
  check_fixed_count size progress w = elim progress.fixed_count_field [
    | none ↦ ok tt w
    | some f ↦
        if not (size_at w size == (field_at progress.iter.start f).array_size)
        then reject wrong_size_for_fixed_count_field w
        else ok tt w
  ]

  -- Where the field has no count, that of the variable at `size` takes its place.
  unfoldable pub with_fixed_count : ℕ → Locals → Filler S Locals
  with_fixed_count size progress =
      let iter = progress.iter in
      let counted = record progress {
        iter = record iter { p_size = size };
        fixed_count_field = some iter.pos;
      } in
      let is_same : Bool = elim progress.fixed_count_field [
        | none ↦ false
        | some f ↦ f == iter.pos
      ] in
      if pb_htype (field_at iter.start iter.pos).type == HType.repeated
        && iter.p_size == iter.p_data
      then (if is_same
          then return counted
          else check_fixed_count size progress >> set_size size 0 >> return counted)
      else return progress

  module _ (depth : ℕ) (decode decode_noinit : List Field → ℕ → Filler S (Unit {0})) where
    -- A field that the message has.
    unfoldable pub decode_known : ℕ → Locals → Filler S Locals
    decode_known wire_type progress =
        with_fixed_count (p.fixed_count_size depth) progress >>= λ counted.
        let marked = record counted { fields_seen = mark_seen counted.iter counted.fields_seen } in
        decode_field p rounds depth decode decode_noinit wire_type counted.iter >>= λ iter.
        return (record marked { iter = iter })

    -- An extension, or a field that is skipped.
    unfoldable pub decode_unknown : ℕ → ℕ → Locals → Filler S Locals
    decode_unknown tag wire_type progress w =
        let skip = λ (q : Locals). on_stream (pb_skip_field wire_type) >> return q in
        let tried = λ (q : Locals) (w' : Work S).
          if w.stream.bytes_left == w'.stream.bytes_left then skip q w' else ok q w' in
        if ltb tag progress.extension_range_start
        then skip progress w
        else elim (find_extension_field progress.iter) [
          | none ↦ stuck
          | some (iter, found) ↦
              let start = if found then (field_at iter.start iter.pos).tag else 2 ^ 32 - 1 in
              let later = record progress { iter = iter; extension_range_start = start } in
              if ltb tag start
              then skip later w
              else (decode_extension p rounds depth decode decode_noinit tag wire_type iter
                    >> tried later)
                  w
        ]

    abbrev pub decode_one : ℕ → ℕ → Locals → Filler S Locals
    decode_one tag wire_type progress = elim (pb_field_iter_find progress.iter tag) [
      | none ↦ λ w. stuck
      | some (iter, true) ↦ decode_known wire_type (record progress { iter = iter })
      | some (iter, false) ↦ decode_unknown tag wire_type (record progress { iter = iter })
    ]

    -- The loop over the fields of the stream. Each round takes a byte, so `bytes_left` rounds and one
    -- are enough.
    unfoldable pub decode_loop : ℕ → Locals → Filler S Locals
    decode_loop zero progress w = stuck
    decode_loop (suc fuel) progress w = elim (w.stream.bytes_left == 0) [
      | true ↦ ok progress w
      | false ↦
          let read = pb_decode_tag w.stream in
          elim read.0 [
            | ok (tag, wire_type) s ↦
                (decode_one tag wire_type progress >>= decode_loop fuel) (record w { stream = s })
            | err s ↦
                if read.1
                then ok progress (record w { stream = s })
                else err (record w { stream = s })
            | stuck ↦ stuck
          ]
    ]

    -- The check after the loop that all required fields were there.
    unfoldable pub check_required : Locals → Filler S (Unit {0})
    check_required progress = elim (seek_end (suc (length progress.iter.start)) progress.iter) [
      | none ↦ λ w. stuck
      | some end ↦
          if all_seen (req_field_count end) progress.fields_seen
          then return tt
          else reject missing_required_field
    ]

    unfoldable pub decode_message : List Field → ℕ → Filler S (Unit {0})
    decode_message fields dest_struct w =
        let begun : Locals = record {
          iter = (pb_field_iter_begin fields dest_struct).0;
          extension_range_start = 0;
          fixed_count_field = none;
          fields_seen = λ i. 0;
        } in
        (decode_loop (suc w.stream.bytes_left) begun >>= λ progress.
        check_fixed_count (p.fixed_count_size depth) progress >> check_required progress)
          w

  -- `pb_decode`, given `pb_decode_noinit`.
  abbrev pub decode_with : ℕ → Filler S (Unit {0}) → List Field → ℕ → Filler S (Unit {0})
  decode_with depth noinit fields dest_struct w =
      elim ((on_memory (pb_message_set_to_defaults p rounds depth fields dest_struct) >> noinit)
        w) [
          | ok _ w' ↦ ok tt w'
          | err w' ↦ (on_memory (pb_release p rounds depth fields dest_struct) >> λ w''. err w'') w'
          | stuck ↦ stuck
        ]

  -- `depth` bounds the nesting of submessages.
  unfoldable pub pb_decode_noinit : ℕ → List Field → ℕ → Filler S (Unit {0})
  pb_decode_noinit zero fields dest_struct w = stuck
  pb_decode_noinit (suc depth) fields dest_struct w =
      decode_message depth
        (λ fields dest. decode_with depth (pb_decode_noinit depth fields dest) fields dest)
        (pb_decode_noinit depth) fields dest_struct w

  unfoldable pub pb_decode : ℕ → List Field → ℕ → Filler S (Unit {0})
  pb_decode depth fields dest_struct =
      decode_with depth (pb_decode_noinit depth fields dest_struct) fields dest_struct

  unfoldable pub pb_decode_delimited_noinit : ℕ → List Field → ℕ → Filler S (Unit {0})
  pb_decode_delimited_noinit depth fields dest_struct =
      within (pb_decode_noinit depth fields dest_struct)

  unfoldable pub pb_decode_delimited : ℕ → List Field → ℕ → Filler S (Unit {0})
  pb_decode_delimited depth fields dest_struct = within (pb_decode depth fields dest_struct)

  unfoldable pub pb_decode_nullterminated : ℕ → List Field → ℕ → Filler S (Unit {0})
  pb_decode_nullterminated = pb_decode
