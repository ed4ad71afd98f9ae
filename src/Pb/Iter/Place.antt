-- ===== src/Pb/Iter/Place.antt =====
-- The pointer to the data of a field, and the count of required fields, in the iterator of
-- pb_common.c.
use flchat.Base.{
  ℕ, zero, suc, ◌+◌, ◌-◌, ◌*◌, ◌%◌, ◌^◌, ◌&&◌, ◌≡◌, refl, ◌∙◌, subst, length, arith, true, false,
  Bool, Bool-cases, inl, inr, Option, none, some, List, ◌==◌, if◌then◌else◌,
}
use flchat.Base.Memory.{u64}
use flchat.Pb.{Field, pb_htype, pb_atype}
use flchat.Pb.AType
use flchat.Pb.HType
use flchat.Pb.Iter.{
  FieldIter, field_at, in_union, prev_size, advanced, is_wanted, pb_field_iter_begin,
  pb_field_iter_next, find_loop, pb_field_iter_find,
}

-- Whether a field is a further one of the union of the field before it.
abbrev shares_place : Field → Field → Bool
shares_place prev_field field =
    field.data_offset == 2 ^ 32 - 1
    && (pb_htype field.type == HType.oneof && pb_htype prev_field.type == HType.oneof)

-- What a field takes in the structure: a pointer its 8 bytes, and a static array all its entries.
abbrev size_taken : Field → ℕ
size_taken field =
    if pb_atype field.type == AType.pointer
    then 8
    else if pb_htype field.type == HType.repeated && pb_atype field.type == AType.static
    then field.array_size * field.data_size % 2 ^ 64
    else field.data_size

-- The place of field `i`: behind the fields before it, each with its gap, where the fields of a
-- union share one place.
unfoldable pub place : List Field → ℕ → ℕ → ℕ
place fields dest_struct zero = dest_struct + (field_at fields 0).data_offset
place fields dest_struct (suc i) =
    let before = place fields dest_struct i in
    let prev_field = field_at fields i in
    let field = field_at fields (suc i) in
    if shares_place prev_field field
    then before
    else before + size_taken prev_field + field.data_offset

-- The number of required fields before field `i`.
unfoldable pub required_before : List Field → ℕ → ℕ
required_before fields zero = 0
required_before fields (suc i) =
    let before = required_before fields i in
    if pb_htype (field_at fields i).type == HType.required then suc before else before

-- The iterator's pointer and its count are those of its field.
abbrev pub IsPlaced : FieldIter → Type 0
IsPlaced iter =
    (iter.p_data ≡ u64 (place iter.start iter.dest_struct iter.pos))
    × (iter.required_field_index ≡ required_before iter.start iter.pos)

pub pb_field_iter_begin-IsPlaced :
    (fields : List Field) (dest_struct : ℕ) → IsPlaced (pb_field_iter_begin fields dest_struct).0
unfolding pb_field_iter_begin place required_before
pb_field_iter_begin-IsPlaced fields dest_struct = (refl, refl)

shares_place_lem :
    (prev_field field : Field) → shares_place prev_field field ≡ in_union prev_field field
shares_place_lem prev_field field = ground arith

size_taken_lem : (field : Field) → size_taken field ≡ prev_size field
size_taken_lem field = ground arith

place_next :
    (fields : List Field) (dest_struct i : ℕ)
    → place fields dest_struct (i + 1) ≡ (
        if in_union (field_at fields i) (field_at fields (i + 1))
        then place fields dest_struct i
        else place fields dest_struct i
          + prev_size (field_at fields i)
          + (field_at fields (i + 1)).data_offset)
unfolding place
place_next fields dest_struct i =
    let next : i + 1 ≡ suc i = omega arith in
    rw
      (
        next,
        shares_place_lem (field_at fields i) (field_at fields (suc i)),
        size_taken_lem (field_at fields i),
      )
      refl

pub required_before_next :
    (fields : List Field) (i : ℕ)
    → required_before fields (i + 1) ≡ (
        if pb_htype (field_at fields i).type == HType.required
        then suc (required_before fields i)
        else required_before fields i)
unfolding required_before
required_before_next fields i = let next : i + 1 ≡ suc i = omega arith in rw next refl

union_not_required :
    (prev_field field : Field)
    → in_union prev_field field ≡ true
    → (pb_htype prev_field.type == HType.required) ≡ false
union_not_required prev_field field union = ground arith

advanced-IsPlaced : (iter : FieldIter) → IsPlaced iter → IsPlaced (advanced iter)
advanced-IsPlaced iter placed =
    elim (Bool-cases
      (in_union (field_at iter.start iter.pos) (field_at iter.start (iter.pos + 1)))) [
        | inl union ↦
            let here : place iter.start iter.dest_struct (iter.pos + 1)
                ≡ place iter.start iter.dest_struct iter.pos =
              place_next iter.start iter.dest_struct iter.pos ∙ rw union refl in
            let count : required_before iter.start (iter.pos + 1)
                ≡ required_before iter.start iter.pos =
              required_before_next iter.start iter.pos
              ∙ rw (union_not_required _ (field_at iter.start (iter.pos + 1)) union) refl in
            rw union (rw here placed.0, rw count placed.1)
        | inr other ↦
            let here : place iter.start iter.dest_struct (iter.pos + 1)
                ≡ place iter.start iter.dest_struct iter.pos
                  + prev_size (field_at iter.start iter.pos)
                  + (field_at iter.start (iter.pos + 1)).data_offset =
              place_next iter.start iter.dest_struct iter.pos ∙ rw other refl in
            rw other (
              rw here (omega (arith, placed.0)),
              rw (required_before_next iter.start iter.pos) (ground (arith, placed.1)),
            )
      ]

-- Where `pData` is the place of the iterator's field in the structure, and the index counts the
-- required fields before it, both hold after `pb_field_iter_next`, also where it wraps.
pub pb_field_iter_next-IsPlaced :
    (iter : FieldIter) → IsPlaced iter → IsPlaced (pb_field_iter_next iter).0
unfolding pb_field_iter_next
pb_field_iter_next-IsPlaced iter placed =
    elim (Bool-cases ((field_at iter.start iter.pos).tag == 0)) [
      | inl empty ↦ rw empty placed
      | inr field ↦ elim (Bool-cases ((field_at iter.start (iter.pos + 1)).tag == 0)) [
        | inl last ↦ rw (field, last) (pb_field_iter_begin-IsPlaced iter.start iter.dest_struct)
        | inr more ↦ rw (field, more) (advanced-IsPlaced iter placed)
      ]
    ]

-- The same of an answer, where there is one.
abbrev AnswerIsPlaced : Option (FieldIter × Bool) → Type 0
AnswerIsPlaced none = Unit {0}
AnswerIsPlaced (some (iter, found)) = IsPlaced iter

find_loop-AnswerIsPlaced :
    (fuel start tag : ℕ) (iter : FieldIter)
    → IsPlaced iter
    → AnswerIsPlaced (find_loop fuel start tag iter)
unfolding find_loop
find_loop-AnswerIsPlaced zero start tag iter placed = tt
find_loop-AnswerIsPlaced (suc fuel) start tag iter placed =
    elim (Bool-cases (is_wanted tag (field_at iter.start iter.pos))) [
      | inl wanted ↦ rw (wanted, AnswerIsPlaced) placed
      | inr other ↦ elim (Bool-cases ((pb_field_iter_next iter).0.pos == start)) [
        | inl round ↦ rw (other, round, AnswerIsPlaced) (pb_field_iter_next-IsPlaced iter placed)
        | inr on ↦
            rw (other, on, AnswerIsPlaced)
              (find_loop-AnswerIsPlaced fuel start tag (pb_field_iter_next iter).0
                (pb_field_iter_next-IsPlaced iter placed))
      ]
    ]

-- Where `pData` is the place of the iterator's field in the structure, and the index counts the
-- required fields before it, both hold of the iterator that `pb_field_iter_find` leaves.
pub pb_field_iter_find-IsPlaced :
    (tag : ℕ) (iter iter' : FieldIter) (found : Bool)
    → IsPlaced iter
    → pb_field_iter_find iter tag ≡ some (iter', found)
    → IsPlaced iter'
unfolding pb_field_iter_find
pb_field_iter_find-IsPlaced tag iter iter' found placed h =
    subst AnswerIsPlaced h
      (find_loop-AnswerIsPlaced (suc (length iter.start)) iter.pos tag iter placed)
