-- ===== src/Pb/DecodeMessage/Pointer.antt =====
-- `decode_pointer_field` and `initialize_pointer_field` of FLChat/Pods/nanopb/pb_decode.c.
use flchat.Base.{
  ℕ, zero, suc, ◌+◌, ◌-◌, ◌/◌, ◌^◌, Bool, true, false, not, ◌&&◌, ◌||◌, some, ltb, leb, ◌==◌,
  if◌then◌else◌,
}
use flchat.Base.Memory.{store, store_word, u32, u64}
use flchat.Pb.{
  Field, pb_ltype, pb_htype, pb_size_max, Outcome, ok, err, stuck, ◌>>=◌, ◌>>◌, return,
  too_many_array_entries, invalid_field_type,
}
use flchat.Pb.Decode.{pb_make_string_substream}
use flchat.Pb.DecodeField.{Work, Filler, on_stream, reject, zero_bytes, allocate_field}
use flchat.Pb.DecodeMessage.Services.{Services, Step, on_memory}
use flchat.Pb.DecodeMessage.Static.{set_size, size_at, entry_at}
use flchat.Pb.DecodeMessage.Substream.{close_to}
use flchat.Pb.HType
use flchat.Pb.Istream.{Istream}
use flchat.Pb.Iter.{FieldIter, field_at}
use flchat.Pb.LType
use flchat.Pb.Program.{pointer_at}
use flchat.Pb.WireType

-- Bytes and strings are behind a pointer of their own.
abbrev pub is_text : Field → Bool
is_text field = pb_ltype field.type == LType.string || pb_ltype field.type == LType.bytes

unfoldable pub initialize_pointer_field : (ℕ → ℕ → Step) → ℕ → Field → Step
initialize_pointer_field defaults p_item field m =
    if is_text field
    then some (store_word m p_item 8 0)
    else if pb_ltype field.type == LType.submessage
    then defaults field.ptr p_item (store m p_item (zero_bytes field.data_size))
    else some m

module _ {S : Type 0} (p : Services) (func : Field → ℕ → Filler S (Unit {0}))
    (defaults : ℕ → ℕ → Step) (release_single : FieldIter → Step) where
  abbrev pub allocate : FieldIter → Field → ℕ → Filler S (Unit {0})
  allocate iter field array_size =
      allocate_field p.pb_realloc iter.p_data field.data_size array_size

  -- A fresh item, cleared and then decoded.
  abbrev pub decode_item : Field → ℕ → Filler S (Unit {0})
  decode_item field p_item =
      on_memory (initialize_pointer_field defaults p_item field) >> func field p_item

  -- Entry `i` of the array that the field's pointer points at.
  abbrev pub decode_entry : Field → FieldIter → ℕ → Filler S (Unit {0})
  decode_entry field iter i w =
      decode_item field (entry_at field (pointer_at w.memory iter.p_data) i) w

  abbrev pub decode_pointer_single : Field → FieldIter → Filler S (Unit {0})
  decode_pointer_single field iter w =
      let is_duplicate =
        pb_ltype field.type == LType.submessage && not (pointer_at w.memory iter.p_data == 0) in
      ((if is_duplicate then on_memory (release_single iter) else return tt)
          >> (if pb_htype field.type == HType.oneof
              then set_size iter.p_size field.tag
              else return tt)
          >> (if is_text field
              then func field iter.p_data
              else allocate iter field 1 >> λ w'.
                  decode_item field (pointer_at w'.memory iter.p_data) w'))
        w

  -- More storage for a packed array, by a guess from the bytes that are left: the number of entries
  -- that are allocated then. Entries of size 0 are undefined.
  abbrev pub grow : Field → FieldIter → ℕ → Filler S ℕ
  grow field iter allocated_size w =
      let more = u64 (allocated_size + ((w.stream.bytes_left - 1) / field.data_size + 1)) in
      if not (ltb allocated_size (size_at w iter.p_size + 1))
      then ok allocated_size w
      else if field.data_size == 0
      then stuck
      else (allocate iter field more >> return more) w

  -- The loop over a packed array, on the substream; the result is whether the count has room.
  unfoldable pub pointer_items : ℕ → Field → FieldIter → ℕ → Filler S Bool
  pointer_items zero field iter allocated_size w = stuck
  pointer_items (suc fuel) field iter allocated_size w = elim (w.stream.bytes_left == 0) [
    | true ↦ ok true w
    | false ↦
        (grow field iter allocated_size >>= λ allocated_size'.
        (λ w'. decode_entry field iter (size_at w' iter.p_size) w') >>= λ _ w'.
        elim (size_at w' iter.p_size == pb_size_max) [
          | true ↦ ok false w'
          | false ↦
              (set_size iter.p_size (size_at w' iter.p_size + 1)
                  >> pointer_items fuel field iter allocated_size')
                w'
        ])
          w
  ]

  -- What follows the loop. A count without room overwrites the message of the parent.
  abbrev pub pointer_finished : Istream S → Outcome (Work S) Bool → Outcome (Work S) (Unit {0})
  pointer_finished parent (ok true w) = close_to parent true w
  pointer_finished parent (ok false w) =
      close_to (record parent { errmsg = some too_many_array_entries }) false w
  pointer_finished parent (err w) = close_to parent false w
  pointer_finished parent stuck = stuck

  -- Each entry takes a byte, so `bytes_left` rounds and one are enough.
  unfoldable pub decode_pointer_packed : Field → FieldIter → Filler S (Unit {0})
  decode_pointer_packed field iter w =
      let allocated_size = size_at w iter.p_size in
      (on_stream pb_make_string_substream >>= λ substream w'. pointer_finished w'.stream (
          pointer_items (suc substream.bytes_left) field iter allocated_size
            (record w' { stream = substream })))
        w

  unfoldable pub decode_pointer_entry : Field → FieldIter → Filler S (Unit {0})
  decode_pointer_entry field iter w =
      let size = size_at w iter.p_size in
      if size == pb_size_max
      then reject too_many_array_entries w
      else (set_size iter.p_size (size + 1) >> allocate iter field (size + 1) >> λ w'.
            decode_entry field iter (u32 (size_at w' iter.p_size + 2 ^ 32 - 1)) w')
          w

  unfoldable pub decode_pointer_field : ℕ → FieldIter → Filler S (Unit {0})
  decode_pointer_field wire_type iter =
      let field = field_at iter.start iter.pos in
      let htype = pb_htype field.type in
      if htype == HType.required || htype == HType.optional || htype == HType.oneof
      then decode_pointer_single field iter
      else if htype == HType.repeated
      then (if wire_type == WireType.string && leb (pb_ltype field.type) LType.last_packable
          then decode_pointer_packed field iter
          else decode_pointer_entry field iter)
      else reject invalid_field_type
