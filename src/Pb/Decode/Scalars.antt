-- ===== src/Pb/Decode/Scalars.antt =====
-- What the scalar decoders read.
use flchat.Base.{
  ℕ, ◌+◌, ◌*◌, ◌/◌, ◌%◌, ◌^◌, ◌<◌, ◌≡◌, ◌≢◌, arith, Option, List, ◌∷◌, ◌++◌, length, ltb,
  if◌then◌else◌, true, false,
}
use flchat.Base.Bits.{and_one, and_seven, or_above}
use flchat.Base.Memory.{to_le, not64}
use flchat.Pb.{Error, ok, err}
use flchat.Pb.Decode.{
  pb_decode_varint32, pb_decode_varint32_eof, pb_decode_svarint, pb_decode_fixed32,
  pb_decode_fixed64, pb_decode_tag,
}
use flchat.Pb.Decode.Reads.{Reads, reading, pb_read-Reads}
use flchat.Pb.Decode.Varint.{pb_decode_varint-Reads}
use flchat.Pb.Decode.Varint32.{pb_decode_varint32-Reads}
use flchat.Pb.Encode.Shape.{base128}
use flchat.Pb.Encode.Scalars.{zigzag, zigzag-lt}
use flchat.Pb.Istream.{Istream}

pub pb_decode_svarint-Reads :
    (v : ℕ) → v < 2 ^ 64 → Reads pb_decode_svarint (base128 9 (zigzag v)) v
unfolding pb_decode_svarint
pb_decode_svarint-Reads v h rest left e = ground (
  arith,
  pb_decode_varint-Reads (zigzag v) (zigzag-lt v h) rest left e,
  and_one (zigzag v),
  zigzag_halves v h,
)
  where
    zigzag_halves :
        (v : ℕ)
        → v < 2 ^ 64
        → (if ltb (zigzag v % 2) 1 then zigzag v / 2 else not64 (zigzag v / 2)) ≡ v
    zigzag_halves v h = unfold zigzag in ground arith

pub pb_decode_fixed32-Reads : (v : ℕ) → v < 2 ^ 32 → Reads pb_decode_fixed32 (to_le 4 v) v
unfolding pb_decode_fixed32 to_le
pb_decode_fixed32-Reads v h rest left e = ground (
  arith,
  pb_read-Reads (to_le 4 v) rest left e,
  or_above 8 (v % 256) (v / 256 % 256),
  or_above 16 (v % 2 ^ 16) (v / 2 ^ 16 % 256),
  or_above 24 (v % 2 ^ 24) (v / 2 ^ 24 % 256),
)

pub pb_decode_fixed64-Reads : (v : ℕ) → v < 2 ^ 64 → Reads pb_decode_fixed64 (to_le 8 v) v
unfolding pb_decode_fixed64 to_le
pb_decode_fixed64-Reads v h rest left e = ground (
  arith,
  pb_read-Reads (to_le 8 v) rest left e,
  or_above 8 (v % 256) (v / 256 % 256),
  or_above 16 (v % 2 ^ 16) (v / 2 ^ 16 % 256),
  or_above 24 (v % 2 ^ 24) (v / 2 ^ 24 % 256),
  or_above 32 (v % 2 ^ 32) (v / 2 ^ 32 % 256),
  or_above 40 (v % 2 ^ 40) (v / 2 ^ 40 % 256),
  or_above 48 (v % 2 ^ 48) (v / 2 ^ 48 % 256),
  or_above 56 (v % 2 ^ 56) (v / 2 ^ 56 % 256),
)

-- `*eof` is set only where nothing was read.
not_eof :
    {S : Type 0} (s s' : Istream S) (v : ℕ)
    → pb_decode_varint32 s ≡ ok v s'
    → pb_decode_varint32_eof s ≡ (ok v s', false)
unfolding pb_decode_varint32 pb_decode_varint32_eof
not_eof s s' v h = ground arith

-- From a buffer that starts with the varint of 8 * number + wiretype, not 0 and below 2^32,
-- `pb_decode_tag` takes the varint and answers the number and the wire type.
pub pb_decode_tag_read :
    (number wiretype : ℕ) (rest : List ℕ) (left : ℕ) (e : Option Error)
    → wiretype < 8
    → 8 * number + wiretype < 2 ^ 32
    → 8 * number + wiretype ≢ 0
    → pb_decode_tag (
        reading
          (base128 9 (8 * number + wiretype) ++ rest)
          (length (base128 9 (8 * number + wiretype)) + left)
          e)
      ≡ (ok (number, wiretype) (reading rest left e), false)
unfolding pb_decode_tag
pb_decode_tag_read number wiretype rest left e hw small ne = ground (
  arith,
  not_eof _ _ (8 * number + wiretype)
      (pb_decode_varint32-Reads (8 * number + wiretype) small rest left e),
  and_seven (8 * number + wiretype),
)

-- A zero byte, or the end of the stream, ends a message.
pub pb_decode_tag_end :
    (rest : List ℕ) (left : ℕ) (e : Option Error)
    → pb_decode_tag (reading (0x00 ∷ rest) (1 + left) e) ≡ (err (reading rest left e), true)
unfolding pb_decode_tag base128
pb_decode_tag_end rest left e =
    ground (arith, not_eof _ _ 0 (pb_decode_varint32-Reads 0 (omega arith) rest left e))
