-- ===== src/Pb/DecodeMessage/Release.antt =====
-- Releasing what a message has allocated: `pb_release_single_field` and `pb_release` of
-- FLChat/Pods/nanopb/pb_decode.c.
use flchat.Base.{
  ℕ, zero, suc, ◌+◌, true, false, not, ◌&&◌, ◌||◌, none, some, List, ltb, ◌==◌, if◌then◌else◌,
}
use flchat.Base.Memory.{Memory, load_word, store_word, u64}
use flchat.Pb.{Field, pb_ltype, pb_htype, pb_atype}
use flchat.Pb.AType
use flchat.Pb.DecodeMessage.Services.{Services, Step, ◌>=>◌, each_field_of, iter_from_extension}
use flchat.Pb.HType
use flchat.Pb.Iter.{FieldIter, field_at}
use flchat.Pb.LType
use flchat.Pb.Program.{pointer_at}

-- `pb_release` of the message that `dest_struct` points at, given what releases a field of it.
abbrev pub release_message : (FieldIter → Step) → List Field → ℕ → Step
release_message single fields dest_struct m =
    if dest_struct == 0 then some m else each_field_of single fields dest_struct m

-- An array of `count` submessages.
unfoldable pub release_items : ℕ → (ℕ → Step) → ℕ → ℕ → Step
release_items zero release data_size p_item m = some m
release_items (suc count) release data_size p_item m =
    (release p_item >=> release_items count release data_size (u64 (p_item + data_size))) m

-- The number of submessages of a field.
abbrev pub item_count : Field → FieldIter → Memory → ℕ
item_count field iter m =
    let is_static = pb_atype field.type == AType.static in
    let count =
      if is_static && iter.p_size == iter.p_data
      then field.array_size
      else load_word m iter.p_size 4 in
    if not (pb_htype field.type == HType.repeated)
    then 1
    else if is_static && ltb field.array_size count
    then field.array_size
    else count

module _ (p : Services) where
  -- The loop over the linked list of extensions, which has at most `rounds` of them.
  unfoldable pub release_extensions : ℕ → (FieldIter → Step) → ℕ → Step
  release_extensions zero single extension m = none
  release_extensions (suc rounds) single extension m = elim (extension == 0) [
    | true ↦ some m
    | false ↦
        (single (iter_from_extension p m extension) >=> λ m'.
        release_extensions rounds single (pointer_at m' (u64 (extension + 16))) m')
          m
  ]

  -- The entries of a repeated string or bytes array.
  unfoldable pub free_entries : ℕ → ℕ → Memory → Memory
  free_entries zero p_item m = m
  free_entries (suc count) p_item m =
      free_entries count (u64 (p_item + 8))
        (store_word (p.pb_free m (pointer_at m p_item)) p_item 8 0)

  abbrev pub release_submessages : (FieldIter → Step) → Field → FieldIter → Step
  release_submessages single field iter m =
      let p_item =
        if pb_atype field.type == AType.pointer then pointer_at m iter.p_data else iter.p_data in
      if p_item == 0
      then some m
      else release_items (item_count field iter m)
          (release_message single (p.descriptors field.ptr)) field.data_size p_item m

  abbrev pub release_entries : Field → FieldIter → Memory → Memory
  release_entries field iter m =
      if pb_htype field.type == HType.repeated
        && (pb_ltype field.type == LType.string || pb_ltype field.type == LType.bytes)
      then free_entries (load_word m iter.p_size 4) (pointer_at m iter.p_data) m
      else m

  -- The allocation of a pointer field itself, and the count of its entries.
  abbrev pub release_pointer : Field → FieldIter → Memory → Memory
  release_pointer field iter m =
      let m' = if pb_htype field.type == HType.repeated then store_word m iter.p_size 4 0 else m in
      store_word (p.pb_free m' (pointer_at m' iter.p_data)) iter.p_data 8 0

  module _ (rounds : ℕ) where
    -- `depth` bounds the nesting of submessages and of extensions.
    unfoldable pub pb_release_single_field : ℕ → FieldIter → Step
    pb_release_single_field zero iter m = none
    pb_release_single_field (suc depth) iter m =
        let field = field_at iter.start iter.pos in
        let single = pb_release_single_field depth in
        let inside =
          if pb_ltype field.type == LType.extension
          then release_extensions rounds single (pointer_at m iter.p_data) m
          else if pb_ltype field.type == LType.submessage
          then release_submessages single field iter m
          else some m in
        if pb_htype field.type == HType.oneof && not (load_word m iter.p_size 4 == field.tag)
        then some m
        else elim inside [
          | none ↦ none
          | some m' ↦
              if pb_atype field.type == AType.pointer
              then some (release_pointer field iter (release_entries field iter m'))
              else some m'
        ]

    unfoldable pub pb_release : ℕ → List Field → ℕ → Step
    pb_release depth = release_message (pb_release_single_field depth)
