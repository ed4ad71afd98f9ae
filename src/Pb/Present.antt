-- ===== src/Pb/Present.antt =====
-- When an optional field has a place in the wire format: a specification of the tests of
-- FLChat/Pods/nanopb/pb_encode.c, which go along the structure with the iterator.
pub mod Agrees
use flchat.Base.{
  ℕ, zero, suc, ◌+◌, Bool, true, false, not, ◌||◌, Option, none, some, List, [], ◌∷◌, length, ◌==◌,
  if◌then◌else◌,
}
use flchat.Base.Memory.{Memory, load, load_word, u64}
use flchat.Pb.{Field, pb_ltype, pb_htype, pb_atype}
use flchat.Pb.AType
use flchat.Pb.HType
use flchat.Pb.Iter.{field_at}
use flchat.Pb.Iter.Place.{place}
use flchat.Pb.LType

-- A list of bytes without any but 0.
unfoldable pub only_zeros : List ℕ → Bool
only_zeros [] = true
only_zeros (b ∷ bs) = let rest = only_zeros bs in if b == 0 then rest else false

-- All of the fields from `i` on, `left` of them, pass; `none` where a test has no answer before.
unfoldable pub all_from : ℕ → (ℕ → Option Bool) → ℕ → Option Bool
all_from zero test i = some true
all_from (suc left) test i =
    let rest = all_from left test (i + 1) in
    elim (test i) [ none ↦ none | some passes ↦ if passes then rest else some false ]

-- The value of a singular field in the structure itself, by its type. `fields_default` is the answer
-- for a submessage.
abbrev pub value_default : Memory → Option Bool → Field → ℕ → Option Bool
value_default m fields_default field a =
    let ltype = pb_ltype field.type in
    if ltype == LType.submessage
    then fields_default
    else some (
        if ltype == LType.string
        then m a == 0
        else if ltype == LType.bytes
        then load_word m a 4 == 0
        else if ltype == LType.fixed_length_bytes
        then field.data_size == 0
        else only_zeros (load m a field.data_size))

-- A field at address `a` has its default: a required one never; an array has no entries, a union no
-- case, and an optional field with a flag has it unset; a pointer is NULL.
unfoldable pub has_default : ℕ → (ℕ → List Field) → Memory → Field → ℕ → Option Bool
has_default zero descriptors m field a = none
has_default (suc depth) descriptors m field a =
    let htype = pb_htype field.type in
    let fields = descriptors field.ptr in
    let inner =
      all_from (length fields)
        (λ i. has_default depth descriptors m (field_at fields i) (u64 (place fields a i))) 0 in
    if htype == HType.required
    then some false
    else if htype == HType.repeated || htype == HType.oneof
    then some (load_word m (u64 (a + field.size_offset)) 4 == 0)
    else if field.size_offset == 0
    then (if pb_atype field.type == AType.static
        then value_default m inner field a
        else some (only_zeros (load m a field.data_size)))
    else some (m (u64 (a + field.size_offset)) == 0)

-- An optional field at address `a` is written: where its flag is set, where its pointer is not NULL,
-- and without both where its value is not the default.
abbrev pub is_written : ℕ → (ℕ → List Field) → Memory → Field → ℕ → Option Bool
is_written depth descriptors m field a =
    if field.size_offset == 0
    then (if pb_atype field.type == AType.pointer
        then some (if load_word m a 8 == 0 then false else true)
        else elim (has_default depth descriptors m field a) [
          | none ↦ none
          | some default ↦ some (if default then false else true)
        ])
    else some (if m (u64 (a + field.size_offset)) == 0 then false else true)

-- Where the data of an entry of an array stand, for an entry at `q`: strings and bytes that are
-- pointers stand elsewhere.
abbrev pub data_of_entry : Memory → Field → ℕ → ℕ
data_of_entry m field q =
    let ltype = pb_ltype field.type in
    if ltype == LType.bytes || ltype == LType.string
    then (if pb_atype field.type == AType.pointer then load_word m q 8 else q)
    else q
