-- ===== src/Pb.antt =====
-- The types of nanopb (FLChat/Pods/nanopb/pb.h): descriptors of fields, wire types, errors and the
-- result of a function on a stream. Sizes are those of the application's build: 64-bit `size_t`,
-- and `pb_size_t` of 32 bits (PB_FIELD_32BIT in Target Support Files/nanopb/nanopb.xcconfig).

pub mod Istream
pub mod Decode
pub mod Ostream
pub mod Encode
pub mod RoundTrip
pub mod Iter
pub mod EncodeField
pub mod DecodeField
pub mod Program
pub mod Proto3
pub mod Present
pub mod EncodeArray
pub mod EncodeMessage
pub mod Format
pub mod DecodeMessage
mod Tests
mod FieldTests
mod MessageTests
pub mod LType
pub mod HType
pub mod AType
pub mod WireType
use flchat.Base.{ℕ, ◌-◌, ◌^◌, bit_and, Option, none, some, ◌≡◌, refl, ◌⊎◌, inl, inr}

-- The messages that PB_RETURN_ERROR stores in `errmsg`.
pub data Error : Type 0 where
  stream_full io_error end_of_stream varint_overflow invalid_wire_type : Error
  parent_stream_too_short invalid_field_type array_max_size_exceeded missing_required_field : Error
  submsg_size_changed invalid_data_size bytes_size_exceeded invalid_field_descriptor : Error
  integer_too_large bytes_overflow size_too_large string_overflow : Error
  incorrect_fixed_length_bytes_size invalid_size realloc_failed array_overflow : Error
  callback_error callback_failed too_many_array_entries invalid_union_tag iterator_error : Error
  wrong_size_for_fixed_count_field : Error

-- `errmsg` keeps the first message: PB_SET_ERROR.
abbrev pub set_error : Option Error → Error → Option Error
set_error none e = some e
set_error (some first) e = some first

-- The two results of a function on a stream of type T, with the stream as it is left: `return true`
-- with what was stored through the output arguments, and `return false`. `stuck` is no C value: a
-- loop of the model ran out of fuel, or the descriptors are such that C leaves the effect undefined.
pub data Outcome (T A : Type 0) : Type 0 where
  ok : A → T → Outcome T A
  err : T → Outcome T A
  stuck : Outcome T A

pub Outcome-cases :
    {T A : Type 0} (o : Outcome T A)
    → ((a : A) × (t : T) × (o ≡ ok a t)) ⊎ ((t : T) × (o ≡ err t)) ⊎ (o ≡ stuck)
Outcome-cases (ok a t) = inl (a, t, refl)
Outcome-cases (err t) = inr (inl (t, refl))
Outcome-cases stuck = inr (inr refl)

module _ {T : Type 0} where
  infixl 5 ◌>>=◌ ◌>>◌
  abbrev pub ◌>>=◌ : {A B : Type 0} → (T → Outcome T A) → (A → T → Outcome T B) → T → Outcome T B
  ◌>>=◌ m f s = elim (m s) [ ok a s' ↦ f a s' | err s' ↦ err s' | stuck ↦ stuck ]

  abbrev pub ◌>>◌ : {A B : Type 0} → (T → Outcome T A) → (T → Outcome T B) → T → Outcome T B
  m >> k = m >>= λ _. k

  abbrev pub return : {A : Type 0} → A → T → Outcome T A
  return a s = ok a s

-- `pb_size_t` is `uint32_t`, and PB_SIZE_MAX its largest value.
abbrev pub pb_size_max : ℕ
pb_size_max = 2 ^ 32 - 1

-- The parts of `pb_field_t.type`.
abbrev pub pb_ltype : ℕ → ℕ
pb_ltype t = bit_and t 0x0f

abbrev pub pb_htype : ℕ → ℕ
pb_htype t = bit_and t 0x30

abbrev pub pb_atype : ℕ → ℕ
pb_atype t = bit_and t 0xc0

pub record Field : Type 0 where
  pub tag : ℕ
  pub type : ℕ
  pub data_offset : ℕ
  -- A signed 32-bit offset, as its pattern on 64 bits.
  pub size_offset : ℕ
  pub data_size : ℕ
  pub array_size : ℕ
  -- The address of a default value or of the descriptors of a submessage, 0 for NULL.
  pub ptr : ℕ
