-- ===== src/Pb/DecodeMessage/Area.antt =====
-- The bytes that `decode_static_field` of pb_decode.c writes: the area of the field, and its count.
use native.Mathlib.Nat.{mul-le-mul_left}
use flchat.Base.{
  ℕ, suc, ◌+◌, ◌*◌, ◌^◌, ◌≤◌, ◌<◌, ◌≡◌, ◌≢◌, ◌⊎◌, inl, inr, refl, ◌∙◌, arith, Bool, true, false,
  not, ◌&&◌, Bool-cases, List, leb, ◌==◌, if◌then◌else◌,
}
use flchat.Base.Memory.{Memory, poke, store_outside, store_word, to_le, length-to_le, u32}
use flchat.Pb.{Field, pb_ltype, pb_htype, pb_atype, Outcome, ok, err, stuck}
use flchat.Pb.AType
use flchat.Pb.DecodeField.{Work, Filler}
use flchat.Pb.DecodeField.Callback.{IsBounded}
use flchat.Pb.DecodeField.Inside.{WritesWithin, pb_dec_fixed_length_bytes-WritesWithin}
use flchat.Pb.DecodeField.Static.{pb_dec_string-WritesWithin, pb_dec_bytes-WritesWithin}
use flchat.Pb.DecodeMessage.Fields.{pb_decoder}
use flchat.Pb.DecodeMessage.Services.{Services, Step}
use flchat.Pb.DecodeMessage.Static.{size_at, entry_at, decode_static_entry, decode_static_field}
use flchat.Pb.HType
use flchat.Pb.Iter.{FieldIter, field_at}
use flchat.Pb.LType
use flchat.Pb.WireType

-- Outside the `n` bytes at `a` and the `k` bytes at `b` the memories agree.
abbrev pub AgreeOutside : Memory → ℕ → ℕ → ℕ → ℕ → Memory → Type 0
AgreeOutside m a n b k m' = (x : ℕ) → (x < a) ⊎ (a + n ≤ x) → (x < b) ⊎ (b + k ≤ x) → m' x ≡ m x

store_word_agrees : (m : Memory) (a n b v : ℕ) → AgreeOutside m a n b 4 (store_word m b 4 v)
store_word_agrees m a n b v x out apart =
    store_outside (to_le 4 v) m b x (ground (arith, length-to_le 4 v))

poke_agrees : (m : Memory) (a n b v : ℕ) → AgreeOutside m a n b 4 (poke m b v)
poke_agrees m a n b v x out apart = ground arith

-- The bytes of a field: those of an array if it is repeated.
abbrev pub area : Field → ℕ
area field =
    if pb_htype field.type == HType.repeated
    then field.data_size * field.array_size
    else field.data_size

-- The array of the iterator's field is below 2^32 bytes and ends below 2^64.
abbrev pub HasRoom : FieldIter → Type 0
HasRoom iter =
    let field = field_at iter.start iter.pos in
    (field.data_size * field.array_size < 2 ^ 32)
    × (iter.p_data + field.data_size * field.array_size < 2 ^ 64)

-- Bytes, a string, or bytes of fixed length, and no pointer.
abbrev pub IsText : Field → Type 0
IsText field =
    (pb_atype field.type ≢ AType.pointer)
    × ((pb_ltype field.type ≡ LType.bytes)
        ⊎ (pb_ltype field.type ≡ LType.string)
        ⊎ (pb_ltype field.type ≡ LType.fixed_length_bytes))

module _ {S : Type 0} where
  -- The outcome is a C value, and the memory is `m` outside both.
  abbrev pub WritesInto : {A : Type 0} → Memory → ℕ → ℕ → ℕ → ℕ → Outcome (Work S) A → Type 0
  WritesInto m a n b k (ok _ w) = AgreeOutside m a n b k w.memory
  WritesInto m a n b k (err w) = AgreeOutside m a n b k w.memory
  WritesInto m a n b k stuck = ⊥

  within-WritesInto :
      (m before : Memory) (a n b k dest size : ℕ) (o : Outcome (Work S) (Unit {0}))
      → AgreeOutside m a n b k before
      → a ≤ dest
      → dest + size ≤ a + n
      → WritesWithin before dest size o
      → WritesInto m a n b k o
  within-WritesInto m before a n b k dest size (ok _ w) same lo hi h =
      λ x out apart. h x (ground arith) ∙ same x out apart
  within-WritesInto m before a n b k dest size (err w) same lo hi h =
      λ x out apart. h x (ground arith) ∙ same x out apart
  within-WritesInto m before a n b k dest size stuck same lo hi h = h

  -- A decoder of one item that stays inside its `data_size` bytes.
  module _ (func : Field → ℕ → Filler S (Unit {0})) (field : Field)
      (inside : (dest : ℕ) (w : Work S)
        → IsBounded w.stream.callback
        → WritesWithin w.memory dest field.data_size (func field dest w)) where
    func-WritesInto :
        (m : Memory) (a n b k dest : ℕ) (w : Work S)
        → IsBounded w.stream.callback
        → AgreeOutside m a n b k w.memory
        → a ≤ dest
        → dest + field.data_size ≤ a + n
        → WritesInto m a n b k (func field dest w)
    func-WritesInto m a n b k dest w bounded same lo hi =
        within-WritesInto m w.memory a n b k dest field.data_size (func field dest w) same lo hi
          (inside dest w bounded)

    -- An entry behind the last one, if the array has room for it.
    decode_static_entry-WritesInto :
        (iter : FieldIter) (w : Work S)
        → IsBounded w.stream.callback
        → field.data_size * field.array_size < 2 ^ 32
        → iter.p_data + field.data_size * field.array_size < 2 ^ 64
        → WritesInto w.memory iter.p_data
            (field.data_size * field.array_size)
            iter.p_size
            4
            (decode_static_entry func field iter w)
    unfolding decode_static_entry
    decode_static_entry-WritesInto iter w bounded small low =
        let size = size_at w iter.p_size in
        elim (Bool-cases (leb field.array_size size)) [
          | inl full ↦
              rw (full, WritesInto)
                (store_word_agrees w.memory iter.p_data _ iter.p_size (u32 (size + 1)))
          | inr room ↦
              let lt : suc size ≤ field.array_size = ground arith in
              let last : field.data_size * suc size ≤ field.data_size * field.array_size =
                mul-le-mul_left field.data_size lt in
              let step : field.data_size * suc size ≡ field.data_size * size + field.data_size =
                omega arith in
              let place : entry_at field iter.p_data size ≡ iter.p_data + field.data_size * size =
                ground arith in
              rw (room, place)
                (func-WritesInto w.memory iter.p_data _ iter.p_size 4
                  (iter.p_data + field.data_size * size) _ bounded
                  (store_word_agrees w.memory iter.p_data _ iter.p_size (u32 (size + 1)))
                  (omega arith) (omega arith))
        ]

    -- A field that is not repeated, behind a change of its count.
    single-WritesInto :
        (m : Memory) (iter : FieldIter) (w : Work S)
        → IsBounded w.stream.callback
        → AgreeOutside m iter.p_data (area field) iter.p_size 4 w.memory
        → (pb_htype field.type == HType.repeated) ≡ false
        → WritesInto m iter.p_data (area field) iter.p_size 4 (func field iter.p_data w)
    single-WritesInto m iter w bounded same single =
        func-WritesInto m iter.p_data (area field) iter.p_size 4 iter.p_data w bounded same
          (omega arith) (ground (arith, single))

  WritesInto-if :
      (m : Memory) (a n b k : ℕ) (test : Bool) (f g : Filler S (Unit {0})) (w : Work S)
      → (test ≡ true → WritesInto m a n b k (f w))
      → (test ≡ false → WritesInto m a n b k (g w))
      → WritesInto m a n b k ((if test then f else g) w)
  WritesInto-if m a n b k true f g w p q = p refl
  WritesInto-if m a n b k false f g w p q = q refl

  pb_decoder-WritesWithin :
      (p : Services) (rounds depth : ℕ)
      (decode decode_noinit : List Field → ℕ → Filler S (Unit {0})) (field : Field)
      → IsText field
      → (dest : ℕ) (w : Work S) → IsBounded w.stream.callback
      → WritesWithin w.memory dest field.data_size
          (pb_decoder p rounds depth decode decode_noinit field dest w)
  unfolding pb_decoder
  pb_decoder-WritesWithin p rounds depth decode decode_noinit field text dest w bounded =
      elim text.1 [
        | inl bytes ↦ rw bytes (pb_dec_bytes-WritesWithin p.pb_realloc field dest w text.0 bounded)
        | inr (inl string) ↦
            rw string (pb_dec_string-WritesWithin p.pb_realloc field dest w text.0 bounded)
        | inr (inr fixed) ↦ rw fixed (pb_dec_fixed_length_bytes-WritesWithin field dest w bounded)
      ]

  decode_static_field-area :
      (func : Field → ℕ → Filler S (Unit {0})) (defaults : ℕ → ℕ → Step) (wire_type : ℕ)
      (iter : FieldIter) (w : Work S)
      → ((dest : ℕ) (v : Work S)
          → IsBounded v.stream.callback
          → WritesWithin v.memory dest
              (field_at iter.start iter.pos).data_size
              (func (field_at iter.start iter.pos) dest v))
      → LType.last_packable < pb_ltype (field_at iter.start iter.pos).type
      → pb_ltype (field_at iter.start iter.pos).type ≢ LType.submessage
      → IsBounded w.stream.callback
      → HasRoom iter
      → WritesInto w.memory iter.p_data
          (area (field_at iter.start iter.pos))
          iter.p_size
          4
          (decode_static_field func defaults wire_type iter w)
  unfolding decode_static_field
  decode_static_field-area func defaults wire_type iter w inside large plain bounded room =
      let field = field_at iter.start iter.pos in
      let a = iter.p_data in
      let n = area field in
      let b = iter.p_size in
      let htype = pb_htype field.type in
      let single = single-WritesInto func field inside w.memory iter in
      WritesInto-if w.memory a n b 4 (htype == HType.required) _ _ w
        (λ e. single w bounded (λ x out apart. refl) (ground (arith, e)))
        (λ e1.
          WritesInto-if w.memory a n b 4 (htype == HType.optional) _ _ w
            (λ e.
              WritesInto-if w.memory a n b 4 (not (b == a)) _ _ w
                (λ flag. single _ bounded (poke_agrees w.memory a n b 1) (ground (arith, e)))
                (λ flag. single w bounded (λ x out apart. refl) (ground (arith, e))))
            (λ e2.
              WritesInto-if w.memory a n b 4 (htype == HType.repeated) _ _ w
                (λ e.
                  let unpacked : (wire_type == WireType.string
                        && leb (pb_ltype field.type) LType.last_packable)
                      ≡ false =
                    ground arith in
                  let array : area field ≡ field.data_size * field.array_size = rw e refl in
                  rw (unpacked, array)
                    (decode_static_entry-WritesInto func field inside iter w bounded room.0 room.1))
                (λ e3.
                  WritesInto-if w.memory a n b 4 (htype == HType.oneof) _ _ w
                    (λ e.
                      let no_submessage : (pb_ltype field.type == LType.submessage) ≡ false =
                        ground arith in
                      rw no_submessage (
                        single _ bounded (store_word_agrees w.memory a n b field.tag)
                          (ground (arith, e))))
                    (λ e. λ x out apart. refl))))

  -- For bytes, strings and bytes of fixed length that stand in the structure, single, optional,
  -- repeated or in a union, `decode_static_field` returns on every stream whose callback gives at
  -- most the bytes that it is asked for, whatever count the structure holds. Success or failure, it
  -- has written only into the area of the field, which is that of `array_size` entries if it is
  -- repeated, and into the four bytes at `pSize`. The array has less than 2^32 bytes and ends below
  -- 2^64.
  pub decode_static_field-WritesInto :
      (p : Services) (rounds depth : ℕ)
      (decode decode_noinit : List Field → ℕ → Filler S (Unit {0})) (defaults : ℕ → ℕ → Step)
      (wire_type : ℕ) (iter : FieldIter) (w : Work S)
      → IsText (field_at iter.start iter.pos)
      → IsBounded w.stream.callback
      → HasRoom iter
      → WritesInto w.memory iter.p_data (area (field_at iter.start iter.pos)) iter.p_size 4 (
          decode_static_field
            (pb_decoder p rounds depth decode decode_noinit)
            defaults
            wire_type
            iter
            w)
  decode_static_field-WritesInto p rounds depth decode decode_noinit defaults wire_type iter w text
        bounded room =
      let field = field_at iter.start iter.pos in
      decode_static_field-area (pb_decoder p rounds depth decode decode_noinit) defaults wire_type
        iter w (pb_decoder-WritesWithin p rounds depth decode decode_noinit field text)
        (ground (arith, text)) (ground (arith, text)) bounded room
