-- ===== src/Pb/Format.antt =====
-- The wire format of a message, as a plain list of bytes: what FLChat/Pods/nanopb/pb_encode.c means
-- to write for a structure in memory. `none` where the encoder reports an error.
pub mod Rules
pub mod Arrays
pub mod Values
pub mod Fields
pub mod Message
pub mod Streams
use flchat.Base.{
  ℕ, zero, suc, ◌+◌, ◌-◌, ◌*◌, ◌%◌, ◌^◌, Bool, true, false, not, ◌&&◌, ◌||◌, Option, none, some,
  List, [], ◌∷◌, ◌++◌, length, ltb, leb, ◌==◌, if◌then◌else◌,
}
use flchat.Base.Memory.{Memory, load, load_word, to_le, u64}
use flchat.Pb.{Field, pb_ltype, pb_htype, pb_atype}
use flchat.Pb.AType
use flchat.Pb.Decode.Substream.{delimited}
use flchat.Pb.Encode.Scalars.{zigzag, wire_type_of}
use flchat.Pb.Encode.Shape.{base128}
use flchat.Pb.HType
use flchat.Pb.Iter.{field_at}
use flchat.Pb.Iter.Place.{place}
use flchat.Pb.LType
use flchat.Pb.Present.{is_written, data_of_entry}
use flchat.Pb.Ostream.{Cursor}
use flchat.Pb.Program.{Program, pointer_at}
use flchat.Pb.WireType

abbrev pub Bytes : Type 0
Bytes = Option (List ℕ)

infixr 64 ◌⊕◌
abbrev pub ◌⊕◌ : Bytes → Bytes → Bytes
none ⊕ ys = none
some xs ⊕ none = none
some xs ⊕ some ys = some (xs ++ ys)

abbrev pub delimited_bytes : Bytes → Bytes
delimited_bytes none = none
delimited_bytes (some bs) = some (delimited bs)

abbrev pub number_bytes : Option ℕ → Bytes
number_bytes none = none
number_bytes (some v) = some (base128 9 v)

abbrev pub zigzag_bytes : Option ℕ → Bytes
zigzag_bytes none = none
zigzag_bytes (some v) = some (base128 9 (zigzag v))

-- The sizes of integers in bytes.
abbrev pub is_size : ℕ → Bool
is_size n = n == 8 || (n == 4 || (n == 2 || n == 1))

abbrev pub unsigned_number : Memory → ℕ → ℕ → Option ℕ
unsigned_number m a n = if is_size n then some (load_word m a n) else none

-- In two's complement, on 64 bits.
abbrev pub signed_number : Memory → ℕ → ℕ → Option ℕ
signed_number m a n =
    let value = load_word m a n in
    if is_size n
    then some (if ltb value (2 ^ (8 * n - 1)) then value else 2 ^ 64 - 2 ^ (8 * n) + value)
    else none

-- The characters before the first 0, at most `n`.
unfoldable pub characters : ℕ → Memory → ℕ → List ℕ
characters zero m a = []
characters (suc n) m a = elim (m a == 0) [ true ↦ [] | false ↦ m a ∷ characters n m (a + 1) ]

-- `count` entries, each `step` bytes behind the last.
unfoldable pub items_bytes : ℕ → (ℕ → Bytes) → ℕ → ℕ → Bytes
items_bytes zero item step p = some []
items_bytes (suc count) item step p = item p ⊕ items_bytes count item step (u64 (p + step))

-- The fields from `i` on, `left` of them.
unfoldable pub bytes_from : ℕ → (ℕ → Bytes) → ℕ → Bytes
bytes_from zero bytes_at i = some []
bytes_from (suc left) bytes_at i = bytes_at i ⊕ bytes_from left bytes_at (i + 1)

-- A field number with the wire type of the field's data.
abbrev pub tag_bytes : Field → Bytes
tag_bytes field = some (base128 9 (8 * field.tag + wire_type_of (pb_ltype field.type)))

-- The bytes of the functions of the application come from outside.
module _ (p : Program Cursor) (m : Memory) (callback_bytes : ℕ → Field → ℕ → List ℕ)
    (extension_bytes : ℕ → ℕ → List ℕ) where
  -- The data of a field without its tag.
  unfoldable pub value_bytes : (List Field → ℕ → Bytes) → Field → ℕ → Bytes
  value_bytes message field src =
      let ltype = pb_ltype field.type in
      let size = load_word m src 4 in
      let max_size = if pb_atype field.type == AType.pointer then 2 ^ 64 - 1 else field.data_size in
      if ltype == LType.varint
      then number_bytes (signed_number m src field.data_size)
      else if ltype == LType.uvarint
      then number_bytes (unsigned_number m src field.data_size)
      else if ltype == LType.svarint
      then zigzag_bytes (signed_number m src field.data_size)
      else if ltype == LType.fixed32
      then some (to_le 4 (load_word m src 4))
      else if ltype == LType.fixed64
      then some (to_le 8 (load_word m src 8))
      else if ltype == LType.bytes
      then (if src == 0
          then some (delimited [])
          else if pb_atype field.type == AType.static && ltb field.data_size ((size + 4) % 2 ^ 64)
          then none
          else some (delimited (load m (src + 4) size)))
      else if ltype == LType.string
      then some (delimited (if src == 0 then [] else characters max_size m src))
      else if ltype == LType.submessage
      then (if field.ptr == 0
          then none
          else delimited_bytes (message (p.descriptors field.ptr) src))
      else if ltype == LType.fixed_length_bytes
      then some (delimited (load m src field.data_size))
      else none

  abbrev pub tagged_bytes : (Field → ℕ → Bytes) → Field → ℕ → Bytes
  tagged_bytes value field src = tag_bytes field ⊕ value field src

  -- An array of numbers is one length-delimited value.
  unfoldable pub array_bytes : (Field → ℕ → Bytes) → Field → ℕ → ℕ → Bytes
  array_bytes value field p_data count =
      if count == 0
      then some []
      else if not (pb_atype field.type == AType.pointer) && ltb field.array_size count
      then none
      else if leb (pb_ltype field.type) LType.last_packable
      then (some (base128 9 (8 * field.tag + WireType.string))
          ⊕ delimited_bytes (items_bytes count (value field) field.data_size p_data))
      else items_bytes count (λ q. tag_bytes field ⊕ value field (data_of_entry m field q))
          field.data_size p_data

  abbrev pub optional_bytes : Option Bool → Bytes → Bytes
  optional_bytes none bs = none
  optional_bytes (some true) bs = bs
  optional_bytes (some false) bs = some []

  unfoldable pub present_bytes : ℕ → (Field → ℕ → Bytes) → Field → ℕ → ℕ → Bytes
  present_bytes depth value field p_data p_item =
      let p_size = u64 (p_data + field.size_offset) in
      if pb_htype field.type == HType.required
      then (if p_item == 0 then none else tagged_bytes value field p_item)
      else if pb_htype field.type == HType.optional
      then optional_bytes (is_written depth p.descriptors m field p_data)
          (tagged_bytes value field p_item)
      else if pb_htype field.type == HType.repeated
      then array_bytes value field p_item
          (if field.size_offset == 0 then field.array_size else load_word m p_size 4)
      else if field.size_offset == 0
      then none
      else if load_word m p_size 4 == field.tag
      then tagged_bytes value field p_item
      else some []

  unfoldable pub field_bytes : ℕ → (Field → ℕ → Bytes) → Field → ℕ → Bytes
  field_bytes depth value field p_data =
      let atype = pb_atype field.type in
      let p_item = if atype == AType.pointer then pointer_at m p_data else p_data in
      let basic = present_bytes depth value field p_data p_item in
      let encode = pointer_at m p_data in
      if atype == AType.static
      then basic
      else if atype == AType.pointer
      then basic
      else if atype == AType.callback
      then (if encode == 0 then some [] else some (callback_bytes encode field (u64 (p_data + 8))))
      else none

  abbrev pub extension_field_bytes : ℕ → (Field → ℕ → Bytes) → ℕ → Bytes
  extension_field_bytes depth value extension =
      let field = field_at (p.descriptors (pointer_at m (pointer_at m extension + 16))) 0 in
      let dest = u64 (extension + 8) in
      let encode = pointer_at m (pointer_at m extension + 8) in
      if encode == 0
      then field_bytes depth value field
          (if pb_atype field.type == AType.pointer then dest else pointer_at m dest)
      else some (extension_bytes encode extension)

  unfoldable pub extensions_bytes : ℕ → ℕ → (Field → ℕ → Bytes) → ℕ → Bytes
  extensions_bytes zero depth value extension = none
  extensions_bytes (suc rounds) depth value extension =
      let later =
        extension_field_bytes depth value extension
        ⊕ extensions_bytes rounds depth value (pointer_at m (u64 (extension + 16))) in
      if extension == 0 then some [] else later

  -- Field `i` of the structure at `src_struct`.
  unfoldable pub field_bytes_at : ℕ → ℕ → (Field → ℕ → Bytes) → List Field → ℕ → ℕ → Bytes
  field_bytes_at rounds depth value fields src_struct i =
      let field = field_at fields i in
      let p_data = u64 (place fields src_struct i) in
      if pb_ltype field.type == LType.extension
      then extensions_bytes rounds depth value (pointer_at m p_data)
      else field_bytes depth value field p_data

  -- The fields one after another.
  unfoldable pub message_bytes : ℕ → ℕ → List Field → ℕ → Bytes
  message_bytes zero rounds fields src_struct = none
  message_bytes (suc depth) rounds fields src_struct =
      bytes_from (length fields)
        (field_bytes_at rounds depth (value_bytes (message_bytes depth rounds)) fields src_struct) 0
