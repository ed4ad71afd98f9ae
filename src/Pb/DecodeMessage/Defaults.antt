-- ===== src/Pb/DecodeMessage/Defaults.antt =====
-- Default values: `pb_field_set_to_default` and `pb_message_set_to_defaults` of
-- FLChat/Pods/nanopb/pb_decode.c.
use flchat.Base.{
  ℕ, zero, suc, ◌+◌, Bool, true, false, not, ◌&&◌, ◌||◌, none, some, List, ◌==◌, if◌then◌else◌,
}
use flchat.Base.Memory.{Memory, poke, store, load, store_word, u64}
use flchat.Pb.{Field, pb_ltype, pb_htype, pb_atype}
use flchat.Pb.AType
use flchat.Pb.DecodeField.{zero_bytes}
use flchat.Pb.DecodeMessage.Services.{Services, Step, ◌>=>◌, each_field_of, iter_from_extension}
use flchat.Pb.HType
use flchat.Pb.Iter.{FieldIter, field_at}
use flchat.Pb.LType
use flchat.Pb.Program.{pointer_at}

-- The flag or the count of a static field.
abbrev pub clear_size : Field → FieldIter → Memory → Memory
clear_size field iter m =
    if pb_htype field.type == HType.optional && not (iter.p_size == iter.p_data)
    then poke m iter.p_size 0
    else if pb_htype field.type == HType.repeated || pb_htype field.type == HType.oneof
    then store_word m iter.p_size 4 0
    else m

-- Whether the data of a static field is set as well.
abbrev pub init_data : Field → Bool
init_data field = not (pb_htype field.type == HType.repeated || pb_htype field.type == HType.oneof)

-- The data of a static field: a submessage, a copy of the default value, or zeros.
abbrev pub set_data : (ℕ → ℕ → Step) → Field → ℕ → Step
set_data message field p_data m =
    if pb_ltype field.type == LType.submessage
    then message field.ptr p_data m
    else if not (field.ptr == 0)
    then some (store m p_data (load m field.ptr field.data_size))
    else some (store m p_data (zero_bytes field.data_size))

abbrev pub set_pointer : Field → FieldIter → Memory → Memory
set_pointer field iter m =
    let m' = store_word m iter.p_data 8 0 in
    if pb_htype field.type == HType.repeated || pb_htype field.type == HType.oneof
    then store_word m' iter.p_size 4 0
    else m'

-- The loop over the linked list of extensions, which has at most `rounds` of them.
unfoldable pub default_extensions : Services → ℕ → (FieldIter → Step) → ℕ → Step
default_extensions p zero single extension m = none
default_extensions p (suc rounds) single extension m = elim (extension == 0) [
  | true ↦ some m
  | false ↦
      let m' = poke m (u64 (extension + 24)) 0 in
      (single (iter_from_extension p m' extension) >=> λ m''.
      default_extensions p rounds single (pointer_at m'' (u64 (extension + 16))) m'')
        m'
]

module _ (p : Services) (rounds : ℕ) where
  -- `depth` bounds the nesting of submessages and of extensions.
  unfoldable pub pb_field_set_to_default : ℕ → FieldIter → Step
  pb_field_set_to_default zero iter m = none
  pb_field_set_to_default (suc depth) iter m =
      let field = field_at iter.start iter.pos in
      let atype = pb_atype field.type in
      let single = pb_field_set_to_default depth in
      let message = λ (ptr : ℕ). each_field_of single (p.descriptors ptr) in
      if pb_ltype field.type == LType.extension
      then default_extensions p rounds single (pointer_at m iter.p_data) m
      else if atype == AType.static
      then (if init_data field
          then set_data message field iter.p_data (clear_size field iter m)
          else some (clear_size field iter m))
      else if atype == AType.pointer
      then some (set_pointer field iter m)
      else some m

  unfoldable pub pb_message_set_to_defaults : ℕ → List Field → ℕ → Step
  pb_message_set_to_defaults depth = each_field_of (pb_field_set_to_default depth)
