-- ===== src/Pb/Format/Values.antt =====
-- The data of one field: PB_ENCODERS beside the wire format.
use flchat.Base.{
  ℕ, ◌+◌, ◌%◌, ◌^◌, ◌<◌, ◌≡◌, refl, subst, zero, suc, Bool-cases, inl, inr, arith, ◌&&◌, Option,
  none, some, List, [], length, length-append, ltb, ◌==◌, if◌then◌else◌,
}
use flchat.Base.Memory.{Memory, load, load_word, length-load}
use flchat.Pb.{Field, pb_atype, invalid_data_size, bytes_size_exceeded, invalid_field_descriptor}
use flchat.Pb.AType
use flchat.Pb.Decode.Substream.{delimited}
use flchat.Pb.Encode.{pb_encode_varint, pb_encode_svarint, pb_encode_string}
use flchat.Pb.Encode.Scalars.{
  pb_encode_varint-Writes, pb_encode_svarint-Writes, pb_encode_fixed32-Writes,
  pb_encode_fixed64-Writes, pb_encode_string-Writes,
}
use flchat.Pb.Encode.Writes.{Writes}
use flchat.Pb.Encode.Shape.{base128}
use flchat.Pb.EncodeArray.{undefined}
use flchat.Pb.EncodeField.{
  string_length, signed_value, unsigned_value, pb_enc_varint, pb_enc_uvarint, pb_enc_svarint,
  pb_enc_fixed32, pb_enc_fixed64, pb_enc_bytes, pb_enc_string, pb_enc_fixed_length_bytes,
}
use flchat.Pb.EncodeMessage.{pb_encoder}
use flchat.Pb.Format.{
  Bytes, unsigned_number, signed_number, characters, number_bytes, zigzag_bytes, value_bytes,
}
use flchat.Pb.Format.Rules.{
  Implements, Implements-none, fail-Refuses, stuck-Refuses, Implements-some, Implements-if,
  submessage-Implements,
}
use flchat.Pb.Ostream.{Cursor, Encoder, fail}
use flchat.Pb.Program.{Program}
use flchat.Pb.RoundTrip.Integers.{from_le-lt}

-- What an integer encoder does with a value of a size that it knows.
integer_or_fail : (ℕ → Encoder Cursor) → Option ℕ → Encoder Cursor
integer_or_fail encode o = elim o [ none ↦ fail invalid_data_size | some value ↦ encode value ]

number-Implements :
    (o : Option ℕ)
    → ((v : ℕ) → o ≡ some v → v < 2 ^ 64)
    → Implements (integer_or_fail pb_encode_varint o) (number_bytes o)
unfolding integer_or_fail
number-Implements none h = Implements-none _ (fail-Refuses invalid_data_size)
number-Implements (some v) h = Implements-some _ _ λ small. pb_encode_varint-Writes v (h v refl)

zigzag-Implements :
    (o : Option ℕ)
    → ((v : ℕ) → o ≡ some v → v < 2 ^ 64)
    → Implements (integer_or_fail pb_encode_svarint o) (zigzag_bytes o)
unfolding integer_or_fail
zigzag-Implements none h = Implements-none _ (fail-Refuses invalid_data_size)
zigzag-Implements (some v) h = Implements-some _ _ λ small. pb_encode_svarint-Writes v (h v refl)

module _ (m : Memory) (bytes : (x : ℕ) → m x < 256) where
  signed_value-lt : (src n v : ℕ) → signed_value m src n ≡ some v → v < 2 ^ 64
  signed_value-lt src n v h = ground (
    arith,
    from_le-lt 1 m src bytes,
    from_le-lt 2 m src bytes,
    from_le-lt 4 m src bytes,
    from_le-lt 8 m src bytes,
  )

  unsigned_value-lt : (src n v : ℕ) → unsigned_value m src n ≡ some v → v < 2 ^ 64
  unsigned_value-lt src n v h = ground (
    arith,
    from_le-lt 1 m src bytes,
    from_le-lt 2 m src bytes,
    from_le-lt 4 m src bytes,
    from_le-lt 8 m src bytes,
  )

  unsigned_agrees : (src n : ℕ) → unsigned_value m src n ≡ unsigned_number m src n
  unsigned_agrees src n = ground arith

  signed_agrees : (src n : ℕ) → signed_value m src n ≡ signed_number m src n
  signed_agrees src n = elim (Bool-cases (n == 1)) [
    | inl e ↦ let one : n ≡ 1 = ground (arith, e) in rw one (ground arith)
    | inr e₁ ↦ elim (Bool-cases (n == 2)) [
      | inl e ↦ let two : n ≡ 2 = ground (arith, e) in rw two (ground arith)
      | inr e₂ ↦ elim (Bool-cases (n == 4)) [
        | inl e ↦ let four : n ≡ 4 = ground (arith, e) in rw four (ground arith)
        | inr e₄ ↦ elim (Bool-cases (n == 8)) [
          | inl e ↦ let eight : n ≡ 8 = ground (arith, e) in rw eight (ground arith)
          | inr e₈ ↦ rw (e₁, e₂, e₄, e₈) refl
        ]
      ]
    ]
  ]

  unsigned-Implements :
      (src n : ℕ)
      → Implements
          (integer_or_fail pb_encode_varint (unsigned_value m src n))
          (number_bytes (unsigned_number m src n))
  unsigned-Implements src n =
      subst
        (λ (o : Option ℕ).
          Implements (integer_or_fail pb_encode_varint (unsigned_value m src n)) (number_bytes o))
        (unsigned_agrees src n) (number-Implements _ (unsigned_value-lt src n))

  signed-Implements :
      (src n : ℕ)
      → Implements
          (integer_or_fail pb_encode_varint (signed_value m src n))
          (number_bytes (signed_number m src n))
  signed-Implements src n =
      subst
        (λ (o : Option ℕ).
          Implements (integer_or_fail pb_encode_varint (signed_value m src n)) (number_bytes o))
        (signed_agrees src n) (number-Implements _ (signed_value-lt src n))

  zigzagged-Implements :
      (src n : ℕ)
      → Implements
          (integer_or_fail pb_encode_svarint (signed_value m src n))
          (zigzag_bytes (signed_number m src n))
  zigzagged-Implements src n =
      subst
        (λ (o : Option ℕ).
          Implements (integer_or_fail pb_encode_svarint (signed_value m src n)) (zigzag_bytes o))
        (signed_agrees src n) (zigzag-Implements _ (signed_value-lt src n))

load-characters : (n : ℕ) (m : Memory) (a : ℕ) → load m a (string_length n m a) ≡ characters n m a
unfolding load string_length characters
load-characters zero m a = refl
load-characters (suc n) m a = ground (arith, load-characters n m (a + 1))

text_agrees :
    (m : Memory) (src max_size : ℕ)
    → load m src (if src == 0 then 0 else string_length max_size m src)
      ≡ (if src == 0 then [] else characters max_size m src)
unfolding load
text_agrees m src max_size = elim (Bool-cases (src == 0)) [
  | inl e ↦ rw e refl
  | inr e ↦ rw e (load-characters max_size m src)
]

-- A string that is loaded from the structure.
load-Implements :
    (m : Memory) (a n : ℕ)
    → Implements (pb_encode_string (load m a n) n) (some (delimited (load m a n)))
load-Implements m a n = Implements-some _ _ λ small.
    let long : length (load m a n) ≡ n = length-load n m a in
    let fits : length (load m a n) < 2 ^ 64 =
      omega (arith, length-append (base128 9 (length (load m a n))) (load m a n)) in
    subst (λ (k : ℕ). Writes (pb_encode_string (load m a n) k) (delimited (load m a n))) long
      (pb_encode_string-Writes (load m a n) fits)

text-Implements :
    (m : Memory) (src max_size : ℕ)
    → Implements
        (let size = if src == 0 then 0 else string_length max_size m src in
          pb_encode_string (load m src size) size)
        (some (delimited (if src == 0 then [] else characters max_size m src)))
text-Implements m src max_size =
    let size = if src == 0 then 0 else string_length max_size m src in
    subst
      (λ (bs : List ℕ). Implements (pb_encode_string (load m src size) size) (some (delimited bs)))
      (text_agrees m src max_size) (load-Implements m src size)

module _ (p : Program Cursor) (m : Memory) (callback_bytes : ℕ → Field → ℕ → List ℕ)
    (extension_bytes : ℕ → ℕ → List ℕ) (bytes : (x : ℕ) → m x < 256)
    (encode : List Field → ℕ → Encoder Cursor) (message : List Field → ℕ → Bytes)
    (inner : (a src : ℕ)
      → Implements (encode (p.descriptors a) src) (message (p.descriptors a) src)) where
  bytes-Implements :
      (field : Field) (src : ℕ)
      → Implements (pb_enc_bytes m field src) (
          if src == 0
          then some (delimited [])
          else if pb_atype field.type == AType.static
              && ltb field.data_size ((load_word m src 4 + 4) % 2 ^ 64)
          then none
          else some (delimited (load m (src + 4) (load_word m src 4))))
  unfolding pb_enc_bytes
  bytes-Implements field src =
      Implements-if (src == 0) _ _ _ _
        (Implements-some _ _ λ small. pb_encode_string-Writes [] (omega arith))
        (Implements-if _ (fail bytes_size_exceeded) _ none _
          (Implements-none _ (fail-Refuses bytes_size_exceeded))
          (load-Implements m (src + 4) (load_word m src 4)))

  pub pb_encoder-Implements :
      (field : Field) (src : ℕ)
      → Implements
          (pb_encoder p m encode field src)
          (value_bytes p m callback_bytes extension_bytes message field src)
  unfolding pb_encoder value_bytes pb_enc_varint pb_enc_uvarint pb_enc_svarint pb_enc_fixed32
      pb_enc_fixed64 pb_enc_string pb_enc_fixed_length_bytes integer_or_fail
  pb_encoder-Implements field src =
      Implements-if _ _ _ _ _ (signed-Implements m bytes src field.data_size) (
        Implements-if _ _ _ _ _ (unsigned-Implements m bytes src field.data_size) (
          Implements-if _ _ _ _ _ (zigzagged-Implements m bytes src field.data_size) (
            Implements-if _ _ _ _ _
              (Implements-some _ _ λ small. pb_encode_fixed32-Writes (load_word m src 4))
              (Implements-if _ _ _ _ _
                (Implements-some _ _ λ small. pb_encode_fixed64-Writes (load_word m src 8))
                (Implements-if _ _ _ _ _ (bytes-Implements field src) (
                  Implements-if _ _ _ _ _ (text-Implements m src _) (
                    Implements-if _ _ _ _ _
                      (Implements-if (field.ptr == 0) (fail invalid_field_descriptor) _ none _
                        (Implements-none _ (fail-Refuses invalid_field_descriptor))
                        (submessage-Implements _ _ _ (inner field.ptr src)))
                      (Implements-if _ _ undefined _ none (load-Implements m src field.data_size)
                        (Implements-none _ stuck-Refuses)))))))))
