-- ===== src/Pb/Format/Fields.antt =====
-- A field with its tag: `encode_field` and the extensions of pb_encode.c beside the wire format.
use flchat.Base.{
  ℕ, zero, suc, ◌+◌, ◌^◌, ◌≤◌, ◌<◌, ◌≡◌, ◌≢◌, refl, sym, subst, arith, Bool, true, false, Option,
  none, some, List, [], ◌∷◌, All, length, length-append, ◌==◌, if◌then◌else◌, Bool-cases, inl, inr,
}
use flchat.Base.Memory.{Memory, load_word, length-to_le, u64}
use flchat.Pb.{
  Outcome-cases, Field, pb_ltype, pb_atype, invalid_field_type, array_max_size_exceeded,
  missing_required_field, callback_error,
}
use flchat.Pb.AType
use flchat.Pb.LType
use flchat.Pb.WireType
use flchat.Pb.Encode.{pb_encode_tag_for_field}
use flchat.Pb.Encode.Scalars.{pb_encode_tag-Writes, pb_encode_tag_for_field-Writes}
use flchat.Pb.Encode.Shape.{base128}
use flchat.Pb.Encode.Writes.{buffered, Writes}
use flchat.Pb.EncodeArray.{undefined, encode_packed}
use flchat.Pb.EncodeMessage.{
  entry_data, is_present, encode_array, encode_optional, encode_present, encode_basic_field,
  encode_callback_field, encode_field, tag_and_data, or_fail, default_extension_encoder,
  extension_encoder, encode_extensions,
}
use flchat.Pb.Format.{
  Bytes, delimited_bytes, items_bytes, tag_bytes, value_bytes, tagged_bytes, array_bytes,
  optional_bytes, present_bytes, field_bytes, extension_field_bytes, extensions_bytes,
}
use flchat.Pb.Format.Arrays.{
  encode_items-Implements, length-items_bytes, encode_packed-Writes, encode_packed-Refuses,
}
use flchat.Pb.Format.Rules.{
  Implements, Implements-same, Implements-none, fail-Refuses, stuck-Refuses, behind-Refuses,
  Implements-some, Implements-return, Implements-if, Implements-then, ⊕-some,
}
use flchat.Pb.Iter.{field_at}
use flchat.Pb.Iter.Find.{IsFields}
use flchat.Pb.Ostream.{Cursor, Encoder, fail}
use flchat.Pb.Present.{is_written, data_of_entry}
use flchat.Pb.Present.Agrees.{is_present-is_written, entry_data-data_of_entry}
use flchat.Pb.Program.{Program, pointer_at}

-- Field numbers have 32 bits.
abbrev pub IsNumbered : List Field → Type 0
IsNumbered = All (λ (f : Field). f.tag < 2 ^ 32)

pub numbered-lt :
    (fields : List Field) (i : ℕ) → IsNumbered fields → (field_at fields i).tag < 2 ^ 32
numbered-lt [] i h = omega arith
numbered-lt (f ∷ fields) zero h = h.0
numbered-lt (f ∷ fields) (suc i) h = numbered-lt fields i h.1

-- A field that has an encoder, with a tag of 32 bits.
abbrev IsTaggable : Field → Type 0
IsTaggable field =
    (field.tag < 2 ^ 32) × (pb_ltype field.type ≤ 9) × (pb_ltype field.type ≢ LType.extension)

tag-Implements :
    (field : Field)
    → IsTaggable field
    → Implements (pb_encode_tag_for_field field) (tag_bytes field)
tag-Implements field h =
    Implements-some _ _ λ small. pb_encode_tag_for_field-Writes field h.0 h.1 h.2

module _ (p : Program Cursor) (m : Memory) (callback_bytes : ℕ → Field → ℕ → List ℕ)
    (extension_bytes : ℕ → ℕ → List ℕ) (message : List Field → ℕ → Bytes)
    (func : Field → ℕ → Encoder Cursor)
    (encodes : (field : Field) (src : ℕ)
      → Implements
          (func field src)
          (value_bytes p m callback_bytes extension_bytes message field src))
    (valid : (a : ℕ) → IsFields (p.descriptors a)) where
  abbrev value : Field → ℕ → Bytes
  value = value_bytes p m callback_bytes extension_bytes message

  -- Only a field with an encoder has data.
  value_taggable :
      (field : Field) (src : ℕ) (bs : List ℕ)
      → value field src ≡ some bs
      → (pb_ltype field.type ≤ 9) × (pb_ltype field.type ≢ LType.extension)
  unfolding value_bytes
  value_taggable field src bs h = ground arith

  value_four :
      (field : Field) (src : ℕ) (bs : List ℕ)
      → pb_ltype field.type ≡ LType.fixed32
      → value field src ≡ some bs
      → length bs ≡ 4
  unfolding value_bytes
  value_four field src bs four h = ground (arith, length-to_le 4 (load_word m src 4))

  value_eight :
      (field : Field) (src : ℕ) (bs : List ℕ)
      → pb_ltype field.type ≡ LType.fixed64
      → value field src ≡ some bs
      → length bs ≡ 8
  unfolding value_bytes
  value_eight field src bs eight h = ground (arith, length-to_le 8 (load_word m src 8))

  value_four_some :
      (field : Field) (src : ℕ) → pb_ltype field.type ≡ LType.fixed32 → value field src ≢ none
  unfolding value_bytes
  value_four_some field src four h = ground arith

  value_eight_some :
      (field : Field) (src : ℕ) → pb_ltype field.type ≡ LType.fixed64 → value field src ≢ none
  unfolding value_bytes
  value_eight_some field src eight h = ground arith

  tagged-Implements :
      (field : Field) (src : ℕ)
      → field.tag < 2 ^ 32
      → Implements
          (tag_and_data p m func field src)
          (tagged_bytes p m callback_bytes extension_bytes value field src)
  tagged-Implements field src h = record {
    writes = λ bs e small.
        let (ds, cs, first, later, both) = ⊕-some (tag_bytes field) (value field src) bs e in
        let (low, plain) = value_taggable field src cs later in
        (Implements-then _ _ _ _ (tag-Implements field (h, low, plain)) (encodes field src)).writes
          bs e small;
    refuses = behind-Refuses _ (func field src) _ (value field src) (encodes field src);
  }

  packed-Implements :
      (field : Field) (p_data count : ℕ) (xs : Bytes)
      → items_bytes count (value field) field.data_size p_data ≡ xs
      → Implements (encode_packed p.null field count (func field) p_data) (delimited_bytes xs)
  packed-Implements field p_data count none e = Implements-none _ (
      encode_packed-Refuses p.null field count p_data (func field) (value field) (encodes field) e
        (λ four q none_there. value_four_some field q four none_there)
        (λ eight q none_there. value_eight_some field q eight none_there))
  packed-Implements field p_data count (some bs) e = Implements-some _ _ λ small.
      let fits : length bs < 2 ^ 64 = omega (arith, length-append (base128 9 (length bs)) bs) in
      let items =
        encode_items-Implements count field.data_size p_data (func field) (value field)
          (encodes field) in
      encode_packed-Writes p.null field count p_data (func field) bs (items.writes bs e fits) fits
        (λ four.
          length-items_bytes 4 count field.data_size p_data (value field) bs
            (λ q xs. value_four field q xs four) e)
        (λ eight.
          length-items_bytes 8 count field.data_size p_data (value field) bs
            (λ q xs. value_eight field q xs eight) e)

  entry-Implements :
      (field : Field) (q : ℕ)
      → field.tag < 2 ^ 32
      → Implements
          (tag_and_data p m func field (entry_data p m field q))
          (tagged_bytes p m callback_bytes extension_bytes value field (data_of_entry m field q))
  entry-Implements field q h =
      subst
        (λ (a : ℕ).
          Implements (tag_and_data p m func field a)
            (tagged_bytes p m callback_bytes extension_bytes value field (data_of_entry m field q)))
        (sym (entry_data-data_of_entry p m field q))
        (tagged-Implements field (data_of_entry m field q) h)

  array-Implements :
      (field : Field) (p_data count : ℕ)
      → field.tag < 2 ^ 32
      → Implements
          (encode_array p m func field p_data count)
          (array_bytes p m callback_bytes extension_bytes value field p_data count)
  unfolding encode_array array_bytes
  array-Implements field p_data count h = Implements-if _ _ _ _ _ Implements-return (
      Implements-if _ (fail array_max_size_exceeded) _ none _
        (Implements-none _ (fail-Refuses array_max_size_exceeded))
        (Implements-if _ _ _ _ _
          (Implements-then _ _ _ _
            (Implements-some _ _
              (λ small. pb_encode_tag-Writes WireType.string field.tag (omega arith) h))
            (packed-Implements field p_data count _ refl))
          (encode_items-Implements count field.data_size p_data _ _
            (λ q. entry-Implements field q h))))

  optional-Implements :
      (present : Option Bool) (f : Encoder Cursor) (xs : Bytes)
      → Implements f xs
      → Implements
          (encode_optional p m present f)
          (optional_bytes p m callback_bytes extension_bytes present xs)
  optional-Implements none f xs h = Implements-none _ stuck-Refuses
  optional-Implements (some true) f xs h = h
  optional-Implements (some false) f xs h = Implements-return

  optional_field-Implements :
      (depth : ℕ) (field : Field) (p_data p_item : ℕ)
      → field.tag < 2 ^ 32
      → Implements
          (encode_optional p m
            (is_present p m depth field p_data)
            (tag_and_data p m func field p_item))
          (optional_bytes p m callback_bytes extension_bytes
            (is_written depth p.descriptors m field p_data)
            (tagged_bytes p m callback_bytes extension_bytes value field p_item))
  optional_field-Implements depth field p_data p_item h =
      let encoder = tag_and_data p m func field p_item in
      let xs = tagged_bytes p m callback_bytes extension_bytes value field p_item in
      let written = is_written depth p.descriptors m field p_data in
      subst
        (λ (b : Option Bool).
          Implements (encode_optional p m b encoder)
            (optional_bytes p m callback_bytes extension_bytes written xs))
        (sym (is_present-is_written p m depth field p_data valid))
        (optional-Implements written encoder xs (tagged-Implements field p_item h))

  present-Implements :
      (depth : ℕ) (field : Field) (p_data p_item : ℕ)
      → field.tag < 2 ^ 32
      → Implements
          (encode_present p m depth func field p_data p_item)
          (present_bytes p m callback_bytes extension_bytes depth value field p_data p_item)
  unfolding present_bytes
  present-Implements depth field p_data p_item h =
      Implements-if _ _ _ _ _
        (Implements-if _ (fail missing_required_field) _ none _
          (Implements-none _ (fail-Refuses missing_required_field))
          (tagged-Implements field p_item h))
        (Implements-if _ _ _ _ _ (optional_field-Implements depth field p_data p_item h) (
          Implements-if _ _ _ _ _ (array-Implements field p_item _ h) (
            Implements-if _ undefined _ none _ (Implements-none _ stuck-Refuses)
              (Implements-if _ _ _ _ _ (tagged-Implements field p_item h) Implements-return))))

  module _
      (callbacks : (encode : ℕ) (field : Field) (arg : ℕ)
        → Writes (p.encode_callback encode field arg) (callback_bytes encode field arg)) where
    callback-Implements :
        (encode : ℕ) (field : Field) (arg : ℕ)
        → Implements
            (or_fail p m callback_error (p.encode_callback encode field arg))
            (some (callback_bytes encode field arg))
    callback-Implements encode field arg =
        let w = callbacks encode field arg in
        Implements-some _ _ λ small. record {
          fits =
              λ m d size written small room. rw (or_fail, w.fits m d size written small room) refl;
          counts = λ c written small. rw (or_fail, w.counts c written small) refl;
          overflows = λ m' d size written le over sum s' h.
              elim (Outcome-cases
                (p.encode_callback encode field arg (buffered m' d size written none))) [
                  | inl (a, t, e) ↦ w.overflows m' d size written le over sum t e
                  | inr (inl (t, e)) ↦ absurd (ground (arith, e, h))
                  | inr (inr e) ↦ absurd (ground (arith, e, h))
                ];
        }

    pub encode_field-Implements :
        (depth : ℕ) (field : Field) (p_data : ℕ)
        → field.tag < 2 ^ 32
        → Implements
            (encode_field p m depth func field p_data)
            (field_bytes p m callback_bytes extension_bytes depth value field p_data)
    unfolding encode_field encode_basic_field encode_callback_field field_bytes
    encode_field-Implements depth field p_data h =
        let atype = pb_atype field.type in
        let p_item = if atype == AType.pointer then pointer_at m p_data else p_data in
        let encode = pointer_at m p_data in
        let basic = present-Implements depth field p_data p_item h in
        Implements-if (atype == AType.static) _ _ _ _ basic (
          Implements-if (atype == AType.pointer) _ _ _ _ basic (
            Implements-if (atype == AType.callback) _ (fail invalid_field_type) _ none
              (Implements-if (encode == 0) _ _ _ _ Implements-return
                (callback-Implements encode field (u64 (p_data + 8))))
              (Implements-none _ (fail-Refuses invalid_field_type))))

    module _
        (extensions : (encode extension : ℕ)
          → Writes (p.encode_extension encode extension) (extension_bytes encode extension))
        (numbered : (a : ℕ) → IsNumbered (p.descriptors a)) where
      extension-Implements :
          (depth extension : ℕ)
          → Implements
              (extension_encoder p m depth func extension)
              (extension_field_bytes p m callback_bytes extension_bytes depth value extension)
      unfolding default_extension_encoder
      extension-Implements depth extension =
          Implements-if _ _ _ _ _ (encode_field-Implements depth _ _ (numbered-lt _ 0 (numbered _)))
            (Implements-some _ _ λ small. extensions _ extension)

      pub encode_extensions-Implements :
          (rounds depth extension : ℕ)
          → Implements
              (encode_extensions p m rounds depth func extension)
              (extensions_bytes p m callback_bytes extension_bytes rounds depth value extension)
      unfolding encode_extensions extensions_bytes
      encode_extensions-Implements zero depth extension = Implements-none _ stuck-Refuses
      encode_extensions-Implements (suc rounds) depth extension =
          Implements-same _ _ _
            (λ s. elim (Bool-cases (extension == 0)) [
              | inl e ↦ rw (e, encode_extensions) refl
              | inr e ↦ rw (e, encode_extensions) refl
            ])
            (Implements-if (extension == 0) _ _ _ _ Implements-return (
              Implements-then _ _ _ _ (extension-Implements depth extension)
                (encode_extensions-Implements rounds depth (pointer_at m (u64 (extension + 16))))))
