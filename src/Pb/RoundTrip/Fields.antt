-- ===== src/Pb/RoundTrip/Fields.antt =====
-- The start of a field, as nanopb writes it and reads it back: its tag, and the length in front of
-- a string.
use flchat.Base.{
  ℕ, ◌+◌, ◌*◌, ◌^◌, ◌≤◌, ◌<◌, ◌≡◌, ◌≢◌, arith, none, List, ◌++◌, length, length-append, false,
}
use flchat.Base.Memory.{Memory, store, load-store}
use flchat.Pb.{ok}
use flchat.Pb.Decode.{pb_decode_tag, pb_make_string_substream}
use flchat.Pb.Decode.Reads.{reading}
use flchat.Pb.Decode.Scalars.{pb_decode_tag_read}
use flchat.Pb.Decode.Substream.{delimited, pb_make_string_substream_read}
use flchat.Pb.Encode.{pb_encode_tag, pb_encode_string}
use flchat.Pb.Encode.Scalars.{pb_encode_tag-Writes, pb_encode_string-Writes}
use flchat.Pb.Encode.Shape.{base128, length-base128}
use flchat.Pb.Encode.Writes.{buffered}
use flchat.Pb.Istream.{pb_istream_from_buffer}
use flchat.Pb.Ostream.{Ostream, Cursor, pb_ostream_from_buffer}
use flchat.Pb.RoundTrip.{reopened}
use native.Mathlib.Nat.{zero-add}

module _ (m : Memory) (buf size : ℕ) (rest : List ℕ) (left : ℕ) (small : size < 2 ^ 64) where
  -- A tag other than 0 that fits 32 bits, written by `pb_encode_tag` into a buffer of at least ten
  -- bytes, is split by `pb_decode_tag` into the same field number and wire type, and the end of the
  -- stream is not reported.
  pub tag_round_trip :
      (number wiretype : ℕ)
      → wiretype < 8
      → 8 * number + wiretype < 2 ^ 32
      → 8 * number + wiretype ≢ 0
      → 10 ≤ size
      → (s : Ostream Cursor) × (pb_encode_tag wiretype number (pb_ostream_from_buffer m buf size)
          ≡ ok tt s)
        × (pb_decode_tag (reopened buf s rest left)
            ≡ (ok (number, wiretype) (reading rest left none), false))
  unfolding pb_ostream_from_buffer pb_istream_from_buffer
  tag_round_trip number wiretype hw fits ne room =
      let bs = base128 9 (8 * number + wiretype) in
      (
        buffered (store m buf bs) (buf + length bs) size (0 + length bs) none,
        (pb_encode_tag-Writes wiretype number hw (omega arith)).fits m buf size 0 small
            (omega (arith, length-base128 9 (8 * number + wiretype))),
        rw (zero-add, load-store bs m buf)
            (pb_decode_tag_read number wiretype rest left none hw fits ne),
      )

  -- The bytes that `pb_encode_string` wrote behind their length, shorter than 2^32 and with room in
  -- the buffer, are what `pb_make_string_substream` makes a substream of, to the byte.
  pub string_round_trip :
      (bs : List ℕ)
      → length bs < 2 ^ 32
      → 10 + length bs ≤ size
      → (s : Ostream Cursor) × (pb_encode_string bs (length bs) (pb_ostream_from_buffer m buf size)
          ≡ ok tt s)
        × (pb_make_string_substream (reopened buf s rest left)
            ≡ ok (reading (bs ++ rest) (length bs) none) (reading (bs ++ rest) left none))
  unfolding pb_ostream_from_buffer pb_istream_from_buffer
  string_round_trip bs short room =
      let text = delimited bs in
      (
        buffered (store m buf text) (buf + length text) size (0 + length text) none,
        (pb_encode_string-Writes bs (omega arith)).fits m buf size 0 small
            (omega (arith, length-append (base128 9 (length bs)) bs, length-base128 9 (length bs))),
        rw (zero-add, load-store text m buf)
            (pb_make_string_substream_read bs rest left none short),
      )
