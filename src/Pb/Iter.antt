-- ===== src/Pb/Iter.antt =====
-- The iterator over the fields of a message: FLChat/Pods/nanopb/pb_common.c. An array of descriptors
-- is a list without the descriptor of tag 0 that ends it, and a position is an index into it.
-- `dest_struct`, `pData` and `pSize` are addresses of 64 bits.
pub mod Find
pub mod Place
pub mod Along
use flchat.Base.{
  ℕ, zero, suc, ◌+◌, ◌*◌, Bool, true, false, ◌&&◌, not, Option, none, some, List, length, get_or,
  ◌==◌, if◌then◌else◌,
}
use flchat.Base.Memory.{u64}
use flchat.Pb.{Field, pb_ltype, pb_htype, pb_atype, pb_size_max}
use flchat.Pb.AType
use flchat.Pb.HType
use flchat.Pb.LType

-- PB_LAST_FIELD
abbrev pb_last_field : Field
pb_last_field = record {
  tag = 0;
  type = 0;
  data_offset = 0;
  size_offset = 0;
  data_size = 0;
  array_size = 0;
  ptr = 0;
}

abbrev pub field_at : List Field → ℕ → Field
field_at fields i = get_or fields i pb_last_field

pub record FieldIter : Type 0 where
  pub start : List Field
  pub pos : ℕ
  pub required_field_index : ℕ
  pub dest_struct : ℕ
  pub p_data : ℕ
  pub p_size : ℕ

-- The iterator, and whether the message has a field.
unfoldable pub pb_field_iter_begin : List Field → ℕ → FieldIter × Bool
pb_field_iter_begin fields dest_struct =
    let first = field_at fields 0 in
    let p_data = u64 (dest_struct + first.data_offset) in
    (
      record {
        start = fields;
        pos = 0;
        required_field_index = 0;
        dest_struct = dest_struct;
        p_data = p_data;
        p_size = u64 (p_data + first.size_offset);
      },
      not (first.tag == 0),
    )

-- Whether two fields that follow each other share their place in a union.
abbrev pub in_union : Field → Field → Bool
in_union prev_field field =
    pb_htype prev_field.type == HType.oneof
    && pb_htype field.type == HType.oneof
    && field.data_offset == pb_size_max

-- The bytes that a field takes in the structure.
abbrev pub prev_size : Field → ℕ
prev_size prev_field =
    if pb_atype prev_field.type == AType.static && pb_htype prev_field.type == HType.repeated
    then u64 (prev_field.data_size * prev_field.array_size)
    else if pb_atype prev_field.type == AType.pointer
    then 8
    else prev_field.data_size

-- The step of `pb_field_iter_next` to a field that is not the terminator.
abbrev pub advanced : FieldIter → FieldIter
advanced iter =
    let prev_field = field_at iter.start iter.pos in
    let field = field_at iter.start (iter.pos + 1) in
    let p_data = u64 (iter.p_data + prev_size prev_field + field.data_offset) in
    if in_union prev_field field then record iter { pos = iter.pos + 1 } else record {
      start = iter.start;
      pos = iter.pos + 1;
      required_field_index =
          if pb_htype prev_field.type == HType.required
          then iter.required_field_index + 1
          else iter.required_field_index;
      dest_struct = iter.dest_struct;
      p_data = p_data;
      p_size = u64 (p_data + field.size_offset);
    }

-- The iterator, and whether it has not wrapped back to the first field.
unfoldable pub pb_field_iter_next : FieldIter → FieldIter × Bool
pb_field_iter_next iter =
    if (field_at iter.start iter.pos).tag == 0
    then (iter, false)
    else if (field_at iter.start (iter.pos + 1)).tag == 0
    then ((pb_field_iter_begin iter.start iter.dest_struct).0, false)
    else (advanced iter, true)

abbrev pub is_wanted : ℕ → Field → Bool
is_wanted tag field = field.tag == tag && not (pb_ltype field.type == LType.extension)

-- The loop of `pb_field_iter_find`, up to the position `start`; `none` is out of fuel.
unfoldable pub find_loop : ℕ → ℕ → ℕ → FieldIter → Option (FieldIter × Bool)
find_loop zero start tag iter = none
find_loop (suc fuel) start tag iter = elim (is_wanted tag (field_at iter.start iter.pos)) [
  | true ↦ some (iter, true)
  | false ↦
      let iter' = (pb_field_iter_next iter).0 in
      elim (iter'.pos == start) [
        | true ↦ some (iter', false)
        | false ↦ find_loop fuel start tag iter'
      ]
]

-- The iterator, and whether it is at a field with the tag. One round for each field is enough.
unfoldable pub pb_field_iter_find : FieldIter → ℕ → Option (FieldIter × Bool)
pb_field_iter_find iter tag = find_loop (suc (length iter.start)) iter.pos tag iter
