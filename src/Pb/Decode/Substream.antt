-- ===== src/Pb/Decode/Substream.antt =====
-- Length-delimited values: substreams, and the fields that are skipped.
use flchat.Base.{
  ℕ, ◌+◌, ◌^◌, ◌<◌, ◌≡◌, refl, arith, Option, List, [], ◌∷◌, ◌++◌, length, append_assoc,
  length-append,
}
use flchat.Base.Memory.{to_le}
use flchat.Pb.{Error, ok}
use flchat.Pb.WireType
use flchat.Pb.Decode.{
  pb_decode_varint32, pb_skip_string, pb_skip_field, pb_make_string_substream,
  pb_close_string_substream,
}
use flchat.Pb.Decode.Reads.{Reads, reading, pb_read_null-Reads, Reads-then}
use flchat.Pb.Decode.Skip.{pb_skip_varint-pb_decode_varint}
use flchat.Pb.Decode.Varint.{pb_decode_varint-Reads}
use flchat.Pb.Decode.Varint32.{pb_decode_varint32-Reads}
use flchat.Pb.Encode.Shape.{base128}
use flchat.Pb.Istream.{pb_read_null}

-- A length and that many bytes.
abbrev pub delimited : List ℕ → List ℕ
delimited bs = base128 9 (length bs) ++ bs

-- From a buffer that starts with a length below 2^32 and that many bytes,
-- `pb_make_string_substream` makes a substream of just these bytes. To the parent it leaves the
-- count of the bytes behind them, and still the address of the first of them.
pub pb_make_string_substream_read :
    (bs rest : List ℕ) (left : ℕ) (e : Option Error)
    → length bs < 2 ^ 32
    → pb_make_string_substream (reading (delimited bs ++ rest) (length (delimited bs) + left) e)
      ≡ ok (reading (bs ++ rest) (length bs) e) (reading (bs ++ rest) left e)
unfolding pb_make_string_substream
pb_make_string_substream_read bs rest left e h = ground (
  arith,
  pb_decode_varint32-Reads (length bs) h (bs ++ rest) (length bs + left) e,
  append_assoc (base128 9 (length bs)) bs rest,
  length-append (base128 9 (length bs)) bs,
)

-- However many of the bytes of a substream over a buffer are unread, `pb_close_string_substream`
-- takes the parent behind them, with its count of bytes unchanged and the substream's message.
pub pb_close_string_substream_read :
    (unread rest : List ℕ) (left : ℕ) (e e' : Option Error) (state : List ℕ)
    → pb_close_string_substream (reading (unread ++ rest) (length unread) e') (reading state left e)
      ≡ ok tt (reading rest left e')
unfolding pb_close_string_substream
pb_close_string_substream_read [] rest left e e' state = refl
pb_close_string_substream_read (b ∷ unread) rest left e e' state =
    ground (arith, pb_read_null-Reads (b ∷ unread) rest 0 e')

pub pb_skip_string-Reads :
    (bs : List ℕ) → length bs < 2 ^ 32 → Reads pb_skip_string (delimited bs) tt
unfolding pb_skip_string
pb_skip_string-Reads bs h =
    Reads-then pb_decode_varint32 pb_read_null (base128 9 (length bs)) bs (length bs) tt
      (pb_decode_varint32-Reads (length bs) h) (pb_read_null-Reads bs)

-- The payloads of the four wire types.
pub data Payload : ℕ → List ℕ → Type 0 where
  varint : (v : ℕ) → v < 2 ^ 64 → Payload WireType.varint (base128 9 v)
  bit64 : (v : ℕ) → Payload WireType.bit64 (to_le 8 v)
  string : (bs : List ℕ) → length bs < 2 ^ 32 → Payload WireType.string (delimited bs)
  bit32 : (v : ℕ) → Payload WireType.bit32 (to_le 4 v)

-- From a buffer, `pb_skip_field` takes exactly the payload of the wire type: a varint below 2^64,
-- eight bytes, a length below 2^32 with its bytes, or four bytes.
pub pb_skip_field-Reads :
    (wire_type : ℕ) (bs : List ℕ)
    → Payload wire_type bs
    → (rest : List ℕ) (left : ℕ) (e : Option Error)
    → pb_skip_field wire_type (reading (bs ++ rest) (length bs + left) e)
      ≡ ok tt (reading rest left e)
unfolding pb_skip_field to_le
pb_skip_field-Reads _ _ (varint v h) rest left e =
    pb_skip_varint-pb_decode_varint _ _ v (pb_decode_varint-Reads v h rest left e)
pb_skip_field-Reads _ _ (bit64 v) rest left e = pb_read_null-Reads (to_le 8 v) rest left e
pb_skip_field-Reads _ _ (string bs h) rest left e = pb_skip_string-Reads bs h rest left e
pb_skip_field-Reads _ _ (bit32 v) rest left e = pb_read_null-Reads (to_le 4 v) rest left e
