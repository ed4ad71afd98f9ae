-- ===== src/Pb/Format/Streams.antt =====
-- What `pb_encode` and the functions that call it in pb_encode.c leave in a buffer, and what they
-- count, beside the wire format.
use flchat.Base.{
  ℕ, ◌+◌, ◌^◌, ◌≤◌, ◌<◌, ◌≡◌, ◌≢◌, refl, ap, ◌∙◌, arith, some, none, List, [], ◌∷◌, ◌++◌, length,
}
use flchat.Base.Memory.{Memory, store}
use flchat.Pb.{Field, ok}
use flchat.Pb.Decode.Substream.{delimited}
use flchat.Pb.Encode.Writes.{Writes, Writes-then, buffered, counting, pb_write-Writes}
use flchat.Pb.EncodeMessage.{
  pb_encode, pb_encode_delimited, pb_encode_nullterminated, pb_get_encoded_size,
}
use flchat.Pb.Format.{message_bytes}
use flchat.Pb.Format.Message.{IsMessage, pb_encode-Implements}
use flchat.Pb.Format.Rules.{pb_encode_submessage-Writes}
use flchat.Pb.Ostream.{Ostream, Cursor, Encoder, pb_ostream_from_buffer, pb_ostream_sizing}
use flchat.Pb.Program.{Program}

Writes-buffer :
    (f : Encoder Cursor) (bs : List ℕ) (out : Memory) (buf bufsize : ℕ)
    → Writes f bs
    → bufsize < 2 ^ 64
    → length bs ≤ bufsize
    → f (pb_ostream_from_buffer out buf bufsize)
      ≡ ok tt (buffered (store out buf bs) (buf + length bs) bufsize (length bs) none)
unfolding pb_ostream_from_buffer
Writes-buffer f bs out buf bufsize w fits room =
    w.fits out buf bufsize 0 fits (omega arith)
    ∙ ap (λ (n : ℕ). ok tt (buffered (store out buf bs) (buf + length bs) bufsize n none))
        (omega arith)

Writes-sizing :
    (f : Encoder Cursor) (bs : List ℕ) (null : Cursor)
    → Writes f bs
    → length bs < 2 ^ 64
    → f (pb_ostream_sizing null) ≡ ok tt (counting null (length bs))
unfolding pb_ostream_sizing
Writes-sizing f bs null w small =
    w.counts null 0 (omega arith) ∙ ap (λ (n : ℕ). ok tt (counting null n)) (omega arith)

module _ (p : Program Cursor) (m : Memory) (callback_bytes : ℕ → Field → ℕ → List ℕ)
    (extension_bytes : ℕ → ℕ → List ℕ) (bytes : (x : ℕ) → m x < 256)
    (messages : (a : ℕ) → IsMessage (p.descriptors a))
    (callbacks : (encode : ℕ) (field : Field) (arg : ℕ)
      → Writes (p.encode_callback encode field arg) (callback_bytes encode field arg))
    (extensions : (encode extension : ℕ)
      → Writes (p.encode_extension encode extension) (extension_bytes encode extension))
    (depth rounds : ℕ) (fields : List Field) (src : ℕ) (bs : List ℕ) (valid : IsMessage fields)
    (format : message_bytes p m callback_bytes extension_bytes depth rounds fields src ≡ some bs)
    (small : length bs < 2 ^ 64) where
  pb_encode-Writes : Writes (pb_encode p m depth rounds fields src) bs
  pb_encode-Writes =
      (pb_encode-Implements p m callback_bytes extension_bytes bytes messages callbacks extensions
          depth rounds fields src valid).writes
        bs format small

  -- Where memory holds bytes, descriptors have tags other than 0 below 2^32, the functions of the
  -- application write the bytes stated for them, and return false without room, and the wire format
  -- of the structure is `bs`, shorter than 2^64: `pb_encode` succeeds on a buffer with room, stores
  -- exactly `bs` at its start, and counts them.
  pub pb_encode-format :
      (out : Memory) (buf bufsize : ℕ)
      → bufsize < 2 ^ 64
      → length bs ≤ bufsize
      → pb_encode p m depth rounds fields src (pb_ostream_from_buffer out buf bufsize)
        ≡ ok tt (buffered (store out buf bs) (buf + length bs) bufsize (length bs) none)
  pb_encode-format out buf bufsize = Writes-buffer _ bs out buf bufsize pb_encode-Writes

  -- Where memory holds bytes, descriptors have tags other than 0 below 2^32, the functions of the
  -- application write the bytes stated for them, and return false without room, and the wire format
  -- of the structure is `bs`, shorter than 2^64: `pb_encode` does not return true on a buffer that
  -- is shorter than `bs`. The buffer and `bs` together have fewer than 2^64 bytes.
  pub pb_encode-overflow :
      (out : Memory) (buf bufsize : ℕ)
      → bufsize < length bs
      → bufsize + length bs < 2 ^ 64
      → (s' : Ostream Cursor)
      → pb_encode p m depth rounds fields src (pb_ostream_from_buffer out buf bufsize) ≢ ok tt s'
  unfolding pb_ostream_from_buffer
  pb_encode-overflow out buf bufsize over =
      pb_encode-Writes.overflows out buf bufsize 0 (omega arith) (omega arith)

  -- Where memory holds bytes, descriptors have tags other than 0 below 2^32, the functions of the
  -- application write the bytes stated for them, and return false without room, and the wire format
  -- of the structure is `bs`, shorter than 2^64: `pb_get_encoded_size` succeeds and answers the
  -- length of `bs`.
  pub pb_get_encoded_size-format :
      pb_get_encoded_size p m depth rounds fields src ≡ ok (length bs) (counting p.null (length bs))
  unfolding pb_get_encoded_size
  pb_get_encoded_size-format =
      rw (pb_get_encoded_size, Writes-sizing _ bs p.null pb_encode-Writes small) refl

  -- Where memory holds bytes, descriptors have tags other than 0 below 2^32, the functions of the
  -- application write the bytes stated for them, and return false without room, and the wire format
  -- of the structure is `bs`, shorter than 2^64: `pb_encode_delimited` succeeds on a buffer with
  -- room and stores the length of `bs` in base 128 and then `bs`.
  pub pb_encode_delimited-format :
      (out : Memory) (buf bufsize : ℕ)
      → bufsize < 2 ^ 64
      → length (delimited bs) ≤ bufsize
      → pb_encode_delimited p m depth rounds fields src (pb_ostream_from_buffer out buf bufsize)
        ≡ ok tt (
            buffered
              (store out buf (delimited bs))
              (buf + length (delimited bs))
              bufsize
              (length (delimited bs))
              none)
  unfolding pb_encode_delimited
  pb_encode_delimited-format out buf bufsize = Writes-buffer _ (delimited bs) out buf bufsize (
      pb_encode_submessage-Writes p.null (pb_encode p m depth rounds fields src) bs small
        pb_encode-Writes)

  -- Where memory holds bytes, descriptors have tags other than 0 below 2^32, the functions of the
  -- application write the bytes stated for them, and return false without room, and the wire format
  -- of the structure is `bs`, shorter than 2^64: `pb_encode_nullterminated` succeeds on a buffer
  -- with room and stores `bs` and then a 0.
  pub pb_encode_nullterminated-format :
      (out : Memory) (buf bufsize : ℕ)
      → bufsize < 2 ^ 64
      → length (bs ++ 0 ∷ []) ≤ bufsize
      → pb_encode_nullterminated p m depth rounds fields src
          (pb_ostream_from_buffer out buf bufsize)
        ≡ ok tt (
            buffered
              (store out buf (bs ++ 0 ∷ []))
              (buf + length (bs ++ 0 ∷ []))
              bufsize
              (length (bs ++ 0 ∷ []))
              none)
  unfolding pb_encode_nullterminated
  pb_encode_nullterminated-format out buf bufsize =
      Writes-buffer _ (bs ++ 0 ∷ []) out buf bufsize
        (Writes-then pb_encode-Writes (pb_write-Writes (0 ∷ [])))
