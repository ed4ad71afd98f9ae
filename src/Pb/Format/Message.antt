-- ===== src/Pb/Format/Message.antt =====
-- A message: `pb_encode` of pb_encode.c and what calls it, beside the wire format.
use flchat.Base.{
  ℕ, zero, suc, ◌+◌, ◌<◌, ◌≡◌, refl, ◌∙◌, arith, true, false, List, [], ◌∷◌, length, ◌==◌,
}
use flchat.Base.Memory.{Memory, u64}
use flchat.Pb.{Field, pb_ltype}
use flchat.Pb.LType
use flchat.Pb.Encode.Writes.{Writes}
use flchat.Pb.EncodeMessage.{
  pb_encoder, encode_at, encode_extension_field, encode_fields, pb_encode,
}
use flchat.Pb.Format.{Bytes, bytes_from, value_bytes, field_bytes_at, message_bytes}
use flchat.Pb.Format.Fields.{
  IsNumbered, numbered-lt, encode_field-Implements, encode_extensions-Implements,
}
use flchat.Pb.Format.Rules.{
  Implements, Implements-same, Implements-none, stuck-Refuses, Implements-return, Implements-if,
  Implements-then,
}
use flchat.Pb.Format.Values.{pb_encoder-Implements}
use flchat.Pb.Iter.{FieldIter, field_at, pb_field_iter_begin, pb_field_iter_next}
use flchat.Pb.Iter.Find.{IsFields}
use flchat.Pb.Iter.Place.{place}
use flchat.Pb.Iter.Along.{IsAt, IsAt-next, begin-IsAt}
use flchat.Pb.Ostream.{Cursor, Encoder}
use flchat.Pb.Program.{Program, pointer_at}

encode_fields-Implements :
    (p : Program Cursor) (m : Memory) (fields : List Field) (src : ℕ)
    (body : FieldIter → Encoder Cursor) (bytes_at : ℕ → Bytes)
    → IsFields fields
    → ((i : ℕ) (iter : FieldIter)
        → i < length fields
        → IsAt fields src i iter
        → Implements (body iter) (bytes_at i))
    → (left fuel i : ℕ) (iter : FieldIter) → left < fuel
    → i + suc left ≡ length fields
    → IsAt fields src i iter
    → Implements (encode_fields p m fuel body iter) (bytes_from (suc left) bytes_at i)
unfolding encode_fields bytes_from
encode_fields-Implements p m fields src body bytes_at h parts left zero i iter enough all here =
    absurd (omega arith)
encode_fields-Implements p m fields src body bytes_at h parts zero (suc fuel) i iter enough all
      here =
    let (more, later) = IsAt-next fields src i iter h (omega arith) here in
    let last : (pb_field_iter_next iter).1 ≡ false = ground (arith, more) in
    Implements-then _ _ _ _ (parts i iter (omega arith) here) (rw last Implements-return)
encode_fields-Implements p m fields src body bytes_at h parts (suc left) (suc fuel) i iter enough
      all here =
    let (more, later) = IsAt-next fields src i iter h (omega arith) here in
    let on : (pb_field_iter_next iter).1 ≡ true = ground (arith, more) in
    Implements-then _ _ _ _ (parts i iter (omega arith) here) (
      rw on (
        encode_fields-Implements p m fields src body bytes_at h parts left fuel (i + 1)
          (pb_field_iter_next iter).0 (omega arith) (omega arith) (later (omega arith))))

-- A descriptor array of a message: the terminator is not in it, and field numbers have 32 bits.
abbrev pub IsMessage : List Field → Type 0
IsMessage fields = IsFields fields × IsNumbered fields

module _ (p : Program Cursor) (m : Memory) (callback_bytes : ℕ → Field → ℕ → List ℕ)
    (extension_bytes : ℕ → ℕ → List ℕ) (bytes : (x : ℕ) → m x < 256)
    (messages : (a : ℕ) → IsMessage (p.descriptors a))
    (callbacks : (encode : ℕ) (field : Field) (arg : ℕ)
      → Writes (p.encode_callback encode field arg) (callback_bytes encode field arg))
    (extensions : (encode extension : ℕ)
      → Writes (p.encode_extension encode extension) (extension_bytes encode extension)) where
  field_at-Implements :
      (depth rounds : ℕ) (fields : List Field) (src : ℕ) (message : List Field → ℕ → Bytes)
      → IsMessage fields
      → (func : Field → ℕ → Encoder Cursor)
      → ((field : Field) (q : ℕ)
          → Implements
              (func field q)
              (value_bytes p m callback_bytes extension_bytes message field q))
      → (i : ℕ) (iter : FieldIter) → i < length fields
      → IsAt fields src i iter
      → Implements (encode_at p m rounds depth func iter) (
          field_bytes_at p m callback_bytes extension_bytes rounds depth
            (value_bytes p m callback_bytes extension_bytes message)
            fields
            src
            i)
  unfolding field_bytes_at encode_extension_field
  field_at-Implements depth rounds fields src message valid func encodes i iter lt here =
      let field = field_at fields i in
      let p_data = u64 (place fields src i) in
      let data_here : iter.p_data ≡ p_data =
        here.placed.0 ∙ rw (here.same_start, here.same_dest, here.same_pos) refl in
      rw (here.same_start, here.same_pos, data_here)
        (Implements-if (pb_ltype field.type == LType.extension) _ _ _ _
          (encode_extensions-Implements p m callback_bytes extension_bytes message func encodes
            (λ a. (messages a).0) callbacks extensions (λ a. (messages a).1) rounds depth
            (pointer_at m p_data))
          (encode_field-Implements p m callback_bytes extension_bytes message func encodes
            (λ a. (messages a).0) callbacks depth field p_data (numbered-lt fields i valid.1)))

  pub pb_encode-Implements :
      (depth rounds : ℕ) (fields : List Field) (src : ℕ)
      → IsMessage fields
      → Implements
          (pb_encode p m depth rounds fields src)
          (message_bytes p m callback_bytes extension_bytes depth rounds fields src)
  unfolding pb_encode message_bytes bytes_from pb_field_iter_begin
  pb_encode-Implements zero rounds fields src valid = Implements-none _ stuck-Refuses
  pb_encode-Implements (suc depth) rounds [] src valid = Implements-return
  pb_encode-Implements (suc depth) rounds (f ∷ fields) src valid =
      let all = f ∷ fields in
      let encodes =
        pb_encoder-Implements p m callback_bytes extension_bytes bytes (pb_encode p m depth rounds)
          (message_bytes p m callback_bytes extension_bytes depth rounds)
          (λ a q. pb_encode-Implements depth rounds (p.descriptors a) q (messages a)) in
      let begun : (f.tag == 0) ≡ false = ground (arith, valid) in
      let loop =
        encode_fields p m (suc (length all))
          (encode_at p m rounds depth (pb_encoder p m (pb_encode p m depth rounds)))
          (pb_field_iter_begin all src).0 in
      Implements-same _ loop _ (λ s. rw (pb_encode, begun) refl)
        (encode_fields-Implements p m all src _ _ valid.0
          (field_at-Implements depth rounds all src _ valid _ encodes) (length fields)
          (suc (length all)) 0 _ (omega arith) (omega arith) (begin-IsAt all src))
