-- ===== src/Pb/RoundTrip/Integers.antt =====
-- The integers of a structure, encoded by `pb_enc_varint`, `pb_enc_uvarint` and `pb_enc_svarint` and
-- decoded by their counterparts into another.
use flchat.Base.{
  ℕ, zero, suc, ◌+◌, ◌^◌, ◌≤◌, ◌<◌, ◌≡◌, refl, arith, none, some, List, ◌==◌, if◌then◌else◌,
}
use flchat.Base.Memory.{Memory, load, load_word, store_word, to_le, from_le, sign_extend, u32}
use flchat.Pb.{Field, ok, ◌>>=◌}
use flchat.Pb.Decode.Reads.{reading}
use flchat.Pb.DecodeField.{
  Filler, on_stream, clamped_signed, clamped_unsigned, pb_dec_varint, pb_dec_uvarint,
  pb_dec_svarint,
}
use flchat.Pb.EncodeField.{
  signed_value, unsigned_value, pb_enc_varint, pb_enc_uvarint, pb_enc_svarint,
}
use flchat.Pb.Ostream.{Ostream, Cursor, Encoder, pb_ostream_from_buffer}
use flchat.Pb.RoundTrip.{reopened, varint_round_trip, svarint_round_trip}
use native.Mathlib.Nat.{pow-suc}

-- The sizes of the integer types.
pub data IntSize : ℕ → Type 0 where
  one : IntSize 1
  two : IntSize 2
  four : IntSize 4
  eight : IntSize 8

pub from_le-lt :
    (n : ℕ) (m : Memory) (a : ℕ) → ((x : ℕ) → m x < 256) → from_le (load m a n) < 256 ^ n
unfolding from_le load
from_le-lt zero m a bytes = omega arith
from_le-lt (suc n) m a bytes = omega (arith, from_le-lt n m (a + 1) bytes, bytes a, pow-suc 256 n)

-- The unsigned value of a field keeps its size.
unsigned_fits :
    (m : Memory) (src n : ℕ)
    → ((x : ℕ) → m x < 256)
    → IntSize n
    → (unsigned_value m src n ≡ some (load_word m src n))
      × (clamped_unsigned n (load_word m src n) ≡ some (load_word m src n))
      × (load_word m src n < 2 ^ 64)
unsigned_fits m src _ bytes one = ground (arith, from_le-lt 1 m src bytes)
unsigned_fits m src _ bytes two = ground (arith, from_le-lt 2 m src bytes)
unsigned_fits m src _ bytes four = ground (arith, from_le-lt 4 m src bytes)
unsigned_fits m src _ bytes eight = ground (arith, from_le-lt 8 m src bytes)

-- The signed value of a field, its survival in the casts of the decoder, and its bytes.
signed_fits :
    (m : Memory) (src n : ℕ)
    → ((x : ℕ) → m x < 256)
    → IntSize n
    → (v : ℕ) × (signed_value m src n ≡ some v)
      × (v < 2 ^ 64)
      × (clamped_signed n v ≡ some v)
      × ((if n == 8 then v else sign_extend 32 (u32 v)) ≡ v)
      × (to_le n v ≡ to_le n (load_word m src n))
unfolding to_le
signed_fits m src _ bytes one = (
  sign_extend 8 (load_word m src 1),
  refl,
  ground (arith, from_le-lt 1 m src bytes),
  ground (arith, from_le-lt 1 m src bytes),
  ground (arith, from_le-lt 1 m src bytes),
  ground (arith, from_le-lt 1 m src bytes),
)
signed_fits m src _ bytes two = (
  sign_extend 16 (load_word m src 2),
  refl,
  ground (arith, from_le-lt 2 m src bytes),
  ground (arith, from_le-lt 2 m src bytes),
  ground (arith, from_le-lt 2 m src bytes),
  ground (arith, from_le-lt 2 m src bytes),
)
signed_fits m src _ bytes four = (
  sign_extend 32 (load_word m src 4),
  refl,
  ground (arith, from_le-lt 4 m src bytes),
  ground (arith, from_le-lt 4 m src bytes),
  ground (arith, from_le-lt 4 m src bytes),
  ground (arith, from_le-lt 4 m src bytes),
)
signed_fits m src _ bytes eight =
    (load_word m src 8, refl, omega (arith, from_le-lt 8 m src bytes), refl, refl, refl)

-- `f` encodes the integer of `n` bytes at `src`, and `g` puts the same bytes at `dest`.
abbrev pub Copies :
    Encoder Cursor
    → Filler (List ℕ) (Unit {0})
    → Memory
    → Memory
    → Memory
    → ℕ
    → ℕ
    → ℕ
    → ℕ
    → ℕ
    → List ℕ
    → ℕ
    → Type 0
Copies f g m out memory n src dest buf size rest left =
    (s : Ostream Cursor) × (f (pb_ostream_from_buffer out buf size) ≡ ok tt s)
    × (g (record { stream = reopened buf s rest left; memory = memory })
        ≡ ok tt (record {
          stream = reading rest left none;
          memory = store_word memory dest n (load_word m src n);
        }))

module _ (m out memory : Memory) (field : Field) (src dest buf size : ℕ) (rest : List ℕ) (left : ℕ)
    (bytes : (x : ℕ) → m x < 256) (int : IntSize field.data_size) (room : 10 ≤ size)
    (small : size < 2 ^ 64) where
  -- An unsigned integer of 1, 2, 4 or 8 bytes, encoded by `pb_enc_uvarint` into a buffer of at least
  -- ten bytes, is decoded by `pb_dec_uvarint` to the same bytes at `dest`, and nothing behind it is
  -- taken.
  pub uvarint_field_round_trip :
      Copies
        (pb_enc_uvarint m field src)
        (pb_dec_uvarint field dest)
        m
        out
        memory
        field.data_size
        src
        dest
        buf
        size
        rest
        left
  unfolding pb_enc_uvarint pb_dec_uvarint
  uvarint_field_round_trip =
      let v = load_word m src field.data_size in
      let (found, kept, fits) = unsigned_fits m src field.data_size bytes int in
      let (s, wrote, read) = varint_round_trip out buf size rest left small v fits room in
      (s, rw (found, pb_enc_uvarint) wrote, rw (read, on_stream, ◌>>=◌) (rw kept (ground arith)))

  -- A signed integer of 1, 2, 4 or 8 bytes, encoded by `pb_enc_varint` into a buffer of at least ten
  -- bytes, is decoded by `pb_dec_varint` to the same bytes at `dest`, and nothing behind it is taken.
  pub varint_field_round_trip :
      Copies
        (pb_enc_varint m field src)
        (pb_dec_varint field dest)
        m
        out
        memory
        field.data_size
        src
        dest
        buf
        size
        rest
        left
  unfolding pb_enc_varint pb_dec_varint
  varint_field_round_trip =
      let (v, found, fits, kept, cast, same) = signed_fits m src field.data_size bytes int in
      let (s, wrote, read) = varint_round_trip out buf size rest left small v fits room in
      (
        s,
        rw (found, pb_enc_varint) wrote,
        rw (read, on_stream, ◌>>=◌) (rw (cast, kept, ← same) (ground arith)),
      )

  -- A signed integer of 1, 2, 4 or 8 bytes, encoded by `pb_enc_svarint` into a buffer of at least ten
  -- bytes, is decoded by `pb_dec_svarint` to the same bytes at `dest`, and nothing behind it is taken.
  pub svarint_field_round_trip :
      Copies
        (pb_enc_svarint m field src)
        (pb_dec_svarint field dest)
        m
        out
        memory
        field.data_size
        src
        dest
        buf
        size
        rest
        left
  unfolding pb_enc_svarint pb_dec_svarint
  svarint_field_round_trip =
      let (v, found, fits, kept, cast, same) = signed_fits m src field.data_size bytes int in
      let (s, wrote, read) = svarint_round_trip out buf size rest left small v fits room in
      (
        s,
        rw (found, pb_enc_svarint) wrote,
        rw (read, on_stream, ◌>>=◌) (rw (kept, ← same) (ground arith)),
      )
