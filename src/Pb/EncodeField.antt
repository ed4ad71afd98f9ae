-- ===== src/Pb/EncodeField.antt =====
-- The field encoders of FLChat/Pods/nanopb/pb_encode.c, `pb_enc_varint` to
-- `pb_enc_fixed_length_bytes`. The structure that is encoded stands in a memory, at the address
-- `src`, 0 for NULL. It does not overlap what the stream writes.
pub mod Text
use flchat.Base.{
  ℕ, zero, suc, ◌+◌, ◌-◌, ◌^◌, Bool, true, false, ◌&&◌, Option, none, some, List, [], ltb, ◌==◌,
  if◌then◌else◌,
}
use flchat.Base.Memory.{Memory, load, load_word, sign_extend, u64}
use flchat.Pb.{Field, pb_atype, invalid_data_size, bytes_size_exceeded}
use flchat.Pb.AType
use flchat.Pb.Encode.{
  pb_encode_varint, pb_encode_svarint, pb_encode_fixed32, pb_encode_fixed64, pb_encode_string,
}
use flchat.Pb.Ostream.{Encoder, fail}

-- A signed integer of `data_size` bytes, as its pattern on 64 bits; `none` for another size.
abbrev pub signed_value : Memory → ℕ → ℕ → Option ℕ
signed_value m src data_size =
    if data_size == 1
    then some (sign_extend 8 (load_word m src 1))
    else if data_size == 2
    then some (sign_extend 16 (load_word m src 2))
    else if data_size == 4
    then some (sign_extend 32 (load_word m src 4))
    else if data_size == 8
    then some (load_word m src 8)
    else none

abbrev pub unsigned_value : Memory → ℕ → ℕ → Option ℕ
unsigned_value m src data_size =
    if data_size == 1
    then some (load_word m src 1)
    else if data_size == 2
    then some (load_word m src 2)
    else if data_size == 4
    then some (load_word m src 4)
    else if data_size == 8
    then some (load_word m src 8)
    else none

-- PB_BYTES_ARRAY_T_ALLOCSIZE: the size of a bytes array, with the `pb_size_t` in front.
abbrev pub alloc_size_of : ℕ → ℕ
alloc_size_of size = u64 (size + 4)

-- The loop of `pb_enc_string`: the characters before the first 0, at most `max_size`.
unfoldable pub string_length : ℕ → Memory → ℕ → ℕ
string_length zero m p = 0
string_length (suc max_size) m p = elim (m p == 0) [
  | true ↦ 0
  | false ↦ suc (string_length max_size m (p + 1))
]

module _ {S : Type 0} where
  unfoldable pub pb_enc_varint : Memory → Field → ℕ → Encoder S
  pb_enc_varint m field src = elim (signed_value m src field.data_size) [
    | none ↦ fail invalid_data_size
    | some value ↦ pb_encode_varint value
  ]

  unfoldable pub pb_enc_uvarint : Memory → Field → ℕ → Encoder S
  pb_enc_uvarint m field src = elim (unsigned_value m src field.data_size) [
    | none ↦ fail invalid_data_size
    | some value ↦ pb_encode_varint value
  ]

  unfoldable pub pb_enc_svarint : Memory → Field → ℕ → Encoder S
  pb_enc_svarint m field src = elim (signed_value m src field.data_size) [
    | none ↦ fail invalid_data_size
    | some value ↦ pb_encode_svarint value
  ]

  unfoldable pub pb_enc_fixed64 : Memory → Field → ℕ → Encoder S
  pb_enc_fixed64 m field src = pb_encode_fixed64 (load_word m src 8)

  unfoldable pub pb_enc_fixed32 : Memory → Field → ℕ → Encoder S
  pb_enc_fixed32 m field src = pb_encode_fixed32 (load_word m src 4)

  unfoldable pub pb_enc_bytes : Memory → Field → ℕ → Encoder S
  pb_enc_bytes m field src =
      let size = load_word m src 4 in
      if src == 0
      then pb_encode_string [] 0
      else if pb_atype field.type == AType.static && ltb field.data_size (alloc_size_of size)
      then fail bytes_size_exceeded
      else pb_encode_string (load m (src + 4) size) size

  unfoldable pub pb_enc_string : Memory → Field → ℕ → Encoder S
  pb_enc_string m field src =
      let max_size = if pb_atype field.type == AType.pointer then 2 ^ 64 - 1 else field.data_size in
      let size = if src == 0 then 0 else string_length max_size m src in
      pb_encode_string (load m src size) size

  unfoldable pub pb_enc_fixed_length_bytes : Memory → Field → ℕ → Encoder S
  pb_enc_fixed_length_bytes m field src =
      pb_encode_string (load m src field.data_size) field.data_size
