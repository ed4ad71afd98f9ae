-- ===== src/Pb/RoundTrip.antt =====
-- The scalar encoders of pb_encode.c followed by the decoders of pb_decode.c.
pub mod Fields
pub mod Strings
pub mod Integers
use flchat.Base.{
  ℕ, ◌+◌, ◌-◌, ◌%◌, ◌*◌, ◌^◌, ◌≤◌, ◌<◌, ◌≡◌, ◌≢◌, ◌∙◌, ap, refl, arith, none, List, ◌++◌, length,
  length-append, append_assoc, true, false, Bool,
}
use flchat.Base.Memory.{Memory, store, load, load-store, to_le}
use flchat.Pb.{Outcome, ok}
use flchat.Pb.Decode.{
  pb_decode_varint, pb_decode_varint32, pb_decode_svarint, pb_decode_fixed32, pb_decode_fixed64,
  pb_decode_tag, pb_make_string_substream,
}
use flchat.Pb.Decode.Reads.{Reads, reading}
use flchat.Pb.Decode.Scalars.{
  pb_decode_svarint-Reads, pb_decode_fixed32-Reads, pb_decode_fixed64-Reads, pb_decode_tag_read,
}
use flchat.Pb.Decode.Varint.{pb_decode_varint-Reads}
use flchat.Pb.Decode.Varint32.{pb_decode_varint32-Reads}
use flchat.Pb.Decode.Varint32Signed.{pb_decode_varint32_negative-Reads}
use flchat.Pb.Encode.{
  pb_encode_varint, pb_encode_svarint, pb_encode_fixed32, pb_encode_fixed64, pb_encode_tag,
  pb_encode_string,
}
use flchat.Pb.Encode.Scalars.{
  pb_encode_varint-Writes, zigzag, zigzag-lt, pb_encode_svarint-Writes, pb_encode_fixed32-Writes,
  pb_encode_fixed64-Writes, pb_encode_tag-Writes, pb_encode_string-Writes,
}
use flchat.Pb.Encode.Shape.{base128, length-base128}
use flchat.Pb.Encode.Writes.{Writes, buffered}
use flchat.Pb.Istream.{Istream, Decoder, pb_istream_from_buffer}
use native.Mathlib.Nat.{zero-add}
use flchat.Pb.Ostream.{Ostream, Cursor, Encoder, pb_ostream_from_buffer}

-- The stream over what `s` has written into the buffer, and over bytes that follow it.
abbrev pub reopened : ℕ → Ostream Cursor → List ℕ → ℕ → Istream (List ℕ)
reopened buf s rest left =
    pb_istream_from_buffer (load s.state.memory buf s.bytes_written ++ rest)
      (s.bytes_written + left)

-- `f` writes into the buffer what `g` reads from it as `a`.
abbrev pub RoundTrips :
    {A : Type 0} → Encoder Cursor → Decoder (List ℕ) A → A → Memory → ℕ → ℕ → List ℕ → ℕ → Type 0
RoundTrips f g a m buf size rest left =
    (s : Ostream Cursor) × (f (pb_ostream_from_buffer m buf size) ≡ ok tt s)
    × (g (reopened buf s rest left) ≡ ok a (reading rest left none))

round_trip :
    {A : Type 0} (f : Encoder Cursor) (g : Decoder (List ℕ) A) (bs : List ℕ) (a : A)
    → Writes f bs
    → Reads g bs a
    → (m : Memory) (buf size : ℕ) (rest : List ℕ) (left : ℕ) → size < 2 ^ 64
    → length bs ≤ size
    → RoundTrips f g a m buf size rest left
unfolding pb_ostream_from_buffer pb_istream_from_buffer
round_trip f g bs a w r m buf size rest left small room = (
  buffered (store m buf bs) (buf + length bs) size (0 + length bs) none,
  w.fits m buf size 0 small (omega arith),
  rw (zero-add, load-store bs m buf) (r rest left none),
)

-- The decoders and encoders of each kind, into a buffer with room for the longest form.
module _ (m : Memory) (buf size : ℕ) (rest : List ℕ) (left : ℕ) (small : size < 2 ^ 64) where
  -- `pb_decode_varint` reads back each 64-bit number that `pb_encode_varint` wrote into a buffer of
  -- at least ten bytes, and stops behind it.
  pub varint_round_trip :
      (v : ℕ)
      → v < 2 ^ 64
      → 10 ≤ size
      → RoundTrips (pb_encode_varint v) pb_decode_varint v m buf size rest left
  varint_round_trip v h room =
      round_trip (pb_encode_varint v) pb_decode_varint (base128 9 v) v (pb_encode_varint-Writes v h)
        (pb_decode_varint-Reads v h) m buf size rest left small (omega (arith, length-base128 9 v))

  -- `pb_decode_varint32` reads back each 32-bit number that `pb_encode_varint` wrote into a buffer
  -- of at least ten bytes, and stops behind it.
  pub varint32_round_trip :
      (v : ℕ)
      → v < 2 ^ 32
      → 10 ≤ size
      → RoundTrips (pb_encode_varint v) pb_decode_varint32 v m buf size rest left
  varint32_round_trip v h room =
      round_trip (pb_encode_varint v) pb_decode_varint32 (base128 9 v) v
        (pb_encode_varint-Writes v (omega arith)) (pb_decode_varint32-Reads v h) m buf size rest
        left small (omega (arith, length-base128 9 v))

  -- A negative `int32_t`, given by its pattern on 64 bits, is written by `pb_encode_varint` into a
  -- buffer of at least ten bytes, and `pb_decode_varint32` reads its 32-bit pattern.
  pub varint32_negative_round_trip :
      (v : ℕ)
      → 2 ^ 64 - 2 ^ 31 ≤ v
      → v < 2 ^ 64
      → 10 ≤ size
      → RoundTrips (pb_encode_varint v) pb_decode_varint32 (v % 2 ^ 32) m buf size rest left
  varint32_negative_round_trip v lo h room =
      round_trip (pb_encode_varint v) pb_decode_varint32 (base128 9 v) (v % 2 ^ 32)
        (pb_encode_varint-Writes v h) (pb_decode_varint32_negative-Reads v lo h) m buf size rest
        left small (omega (arith, length-base128 9 v))

  -- `pb_decode_svarint` reads back each `int64_t`, given by its pattern, that `pb_encode_svarint`
  -- wrote in zigzag form into a buffer of at least ten bytes, and stops behind it.
  pub svarint_round_trip :
      (v : ℕ)
      → v < 2 ^ 64
      → 10 ≤ size
      → RoundTrips (pb_encode_svarint v) pb_decode_svarint v m buf size rest left
  svarint_round_trip v h room =
      round_trip (pb_encode_svarint v) pb_decode_svarint (base128 9 (zigzag v)) v
        (pb_encode_svarint-Writes v h) (pb_decode_svarint-Reads v h) m buf size rest left small
        (omega (arith, length-base128 9 (zigzag v)))

  -- `pb_decode_fixed32` reads back each 32-bit number that `pb_encode_fixed32` wrote into a buffer
  -- of at least four bytes, and stops behind it.
  pub fixed32_round_trip :
      (v : ℕ)
      → v < 2 ^ 32
      → 4 ≤ size
      → RoundTrips (pb_encode_fixed32 v) pb_decode_fixed32 v m buf size rest left
  unfolding to_le
  fixed32_round_trip v h room =
      round_trip (pb_encode_fixed32 v) pb_decode_fixed32 (to_le 4 v) v (pb_encode_fixed32-Writes v)
        (pb_decode_fixed32-Reads v h) m buf size rest left small room

  -- `pb_decode_fixed64` reads back each 64-bit number that `pb_encode_fixed64` wrote into a buffer
  -- of at least eight bytes, and stops behind it.
  pub fixed64_round_trip :
      (v : ℕ)
      → v < 2 ^ 64
      → 8 ≤ size
      → RoundTrips (pb_encode_fixed64 v) pb_decode_fixed64 v m buf size rest left
  unfolding to_le
  fixed64_round_trip v h room =
      round_trip (pb_encode_fixed64 v) pb_decode_fixed64 (to_le 8 v) v (pb_encode_fixed64-Writes v)
        (pb_decode_fixed64-Reads v h) m buf size rest left small room
