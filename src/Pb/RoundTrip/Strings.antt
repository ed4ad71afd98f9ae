-- ===== src/Pb/RoundTrip/Strings.antt =====
-- A string of a structure, encoded by `pb_enc_string` and decoded by `pb_dec_string` into another.
use flchat.Base.{
  ℕ, ◌+◌, ◌^◌, ◌≤◌, ◌<◌, ◌≡◌, ◌≢◌, refl, arith, Option, none, List, ◌++◌, append_assoc, length,
  length-append, ltb, ◌==◌, false,
}
use flchat.Base.Memory.{Memory, store, load-store, poke, u32}
use flchat.Pb.{Field, Error, pb_atype, ok, ◌>>=◌}
use flchat.Pb.AType
use flchat.Pb.Decode.{pb_decode_varint32}
use flchat.Pb.Decode.Reads.{reading, pb_read-Reads}
use flchat.Pb.Decode.Substream.{delimited}
use flchat.Pb.Decode.Varint32.{pb_decode_varint32-Reads}
use flchat.Pb.DecodeField.{on_stream, read_into, pb_dec_string}
use flchat.Pb.Encode.Scalars.{pb_encode_string-Writes}
use flchat.Pb.Encode.Shape.{base128, length-base128}
use flchat.Pb.Encode.Writes.{buffered}
use flchat.Pb.EncodeField.{pb_enc_string}
use flchat.Pb.EncodeField.Text.{HoldsText, pb_enc_string-pb_encode_string}
use flchat.Pb.Istream.{pb_istream_from_buffer}
use flchat.Pb.Ostream.{Ostream, Cursor, pb_ostream_from_buffer}
use flchat.Pb.RoundTrip.{reopened}
use native.Mathlib.Nat.{zero-add}

length_read :
    (bs rest : List ℕ) (left : ℕ) (e : Option Error)
    → length bs < 2 ^ 32
    → pb_decode_varint32 (reading (delimited bs ++ rest) (length (delimited bs) + left) e)
      ≡ ok (length bs) (reading (bs ++ rest) (length bs + left) e)
length_read bs rest left e h = ground (
  arith,
  pb_decode_varint32-Reads (length bs) h (bs ++ rest) (length bs + left) e,
  append_assoc (base128 9 (length bs)) bs rest,
  length-append (base128 9 (length bs)) bs,
)

-- The structure in `memory` with the text and its 0 at `dest`.
abbrev pub with_text : Memory → ℕ → List ℕ → Memory
with_text memory dest text = poke (store memory dest text) (dest + length text) 0

pub pb_dec_string_read :
    (pb_realloc : Memory → ℕ → ℕ → Memory × ℕ) (field : Field) (dest : ℕ) (memory : Memory)
    (text rest : List ℕ) (left : ℕ) (e : Option Error)
    → pb_atype field.type ≢ AType.pointer
    → length text < field.data_size
    → field.data_size < 2 ^ 32
    → pb_dec_string pb_realloc field dest (record {
      stream = reading (delimited text ++ rest) (length (delimited text) + left) e;
      memory = memory;
    })
      ≡ ok tt (record { stream = reading rest left e; memory = with_text memory dest text })
unfolding pb_dec_string
pb_dec_string_read pb_realloc field dest memory text rest left e ne room small =
    let sound : ltb (u32 (length text + 1)) (length text) ≡ false = ground arith in
    let static : (pb_atype field.type == AType.pointer) ≡ false = ground arith in
    let fits : ltb field.data_size (u32 (length text + 1)) ≡ false = ground arith in
    rw (length_read text rest left e (omega arith), on_stream, ◌>>=◌)
      (rw (sound, static, fits, pb_read-Reads text rest left e, on_stream, ◌>>=◌, read_into) refl)

-- A text that stands at `src`, not NULL, with its 0 inside the field, is written by `pb_enc_string`
-- into a buffer with ten bytes more than the text, and `pb_dec_string` of a field that is no pointer
-- and has room puts the same text and its 0 at `dest` and stops behind it. The field has less than
-- 2^32 bytes.
pub text_round_trip :
    (pb_realloc : Memory → ℕ → ℕ → Memory × ℕ) (m out memory : Memory) (field : Field)
    (src dest buf size : ℕ) (text rest : List ℕ) (left : ℕ)
    → src ≢ 0
    → HoldsText m src text
    → pb_atype field.type ≢ AType.pointer
    → length text < field.data_size
    → field.data_size < 2 ^ 32
    → 10 + length text ≤ size
    → size < 2 ^ 64
    → (s : Ostream Cursor) × (pb_enc_string m field src (pb_ostream_from_buffer out buf size)
        ≡ ok tt s)
      × (pb_dec_string pb_realloc field dest
            (record { stream = reopened buf s rest left; memory = memory })
          ≡ ok tt (record { stream = reading rest left none; memory = with_text memory dest text }))
unfolding pb_ostream_from_buffer pb_istream_from_buffer
text_round_trip pb_realloc m out memory field src dest buf size text rest left ne h static fits
      narrow room small =
    let bytes = delimited text in
    (
      buffered (store out buf bytes) (buf + length bytes) size (0 + length bytes) none,
      rw (pb_enc_string-pb_encode_string {S = Cursor} m field src text ne h fits narrow) (
          (pb_encode_string-Writes text (omega arith)).fits out buf size 0 small (
            omega (
              arith,
              length-append (base128 9 (length text)) text,
              length-base128 9 (length text),
            ))),
      rw (zero-add, load-store bytes out buf)
          (pb_dec_string_read pb_realloc field dest memory text rest left none static fits narrow),
    )
