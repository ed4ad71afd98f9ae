-- ===== src/Pb/Proto3.antt =====
-- The check of FLChat/Pods/nanopb/pb_encode.c for a field that proto3 does not encode:
-- `pb_check_proto3_default_value`.
use flchat.Base.{
  ℕ, zero, suc, ◌+◌, Bool, true, false, not, ◌&&◌, Option, none, some, List, length, ◌==◌,
  if◌then◌else◌,
}
use flchat.Base.Memory.{Memory, load_word, u64}
use flchat.Pb.{Field, pb_ltype, pb_htype, pb_atype}
use flchat.Pb.AType
use flchat.Pb.HType
use flchat.Pb.Iter.{FieldIter, field_at, pb_field_iter_begin, pb_field_iter_next}
use flchat.Pb.LType

-- The loop over the bytes of a value: whether they are all 0.
unfoldable pub all_zero : ℕ → Memory → ℕ → Bool
all_zero zero m a = true
all_zero (suc n) m a = m a == 0 && all_zero n m (a + 1)

-- A loop over the fields of a message, from the iterator on, that ends with the first `false`;
-- `none` is out of fuel.
unfoldable pub all_fields : ℕ → (FieldIter → Option Bool) → FieldIter → Option Bool
all_fields zero test iter = none
all_fields (suc rounds) test iter = elim (test iter) [
  | none ↦ none
  | some false ↦ some false
  | some true ↦
      let later = pb_field_iter_next iter in
      elim later.1 [ true ↦ all_fields rounds test later.0 | false ↦ some true ]
]

-- The branch of `pb_check_proto3_default_value` for a submessage, given the check of its fields.
abbrev pub submessage_is_default :
    (ℕ → List Field) → (FieldIter → Option Bool) → Field → ℕ → Option Bool
submessage_is_default descriptors test field p_data =
    let fields = descriptors field.ptr in
    let begun = pb_field_iter_begin fields p_data in
    if begun.1 then all_fields (suc (length fields)) test begun.0 else some true

-- `depth` bounds the nesting of submessages.
unfoldable pub pb_check_proto3_default_value :
    ℕ → (ℕ → List Field) → Memory → Field → ℕ → Option Bool
pb_check_proto3_default_value zero descriptors m field p_data = none
pb_check_proto3_default_value (suc depth) descriptors m field p_data =
    let inner = λ (iter : FieldIter).
      pb_check_proto3_default_value depth descriptors m (field_at iter.start iter.pos)
        iter.p_data in
    let htype = pb_htype field.type in
    let ltype = pb_ltype field.type in
    let p_size = u64 (p_data + field.size_offset) in
    if htype == HType.required
    then some false
    else if htype == HType.repeated
    then some (load_word m p_size 4 == 0)
    else if htype == HType.oneof
    then some (load_word m p_size 4 == 0)
    else if not (field.size_offset == 0)
    then some (m p_size == 0)
    else if not (pb_atype field.type == AType.static)
    then some (all_zero field.data_size m p_data)
    else if ltype == LType.bytes
    then some (load_word m p_data 4 == 0)
    else if ltype == LType.string
    then some (m p_data == 0)
    else if ltype == LType.fixed_length_bytes
    then some (field.data_size == 0)
    else if ltype == LType.submessage
    then submessage_is_default descriptors inner field p_data
    else some (all_zero field.data_size m p_data)
