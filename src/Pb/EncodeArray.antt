-- ===== src/Pb/EncodeArray.antt =====
-- The parts of FLChat/Pods/nanopb/pb_encode.c that encode twice, first to count the bytes:
-- `pb_encode_submessage`, and the packed arrays of `encode_array`.
use flchat.Base.{ℕ, zero, suc, ◌+◌, ◌*◌, not, none, some, [], ltb, ◌==◌, if◌then◌else◌}
use flchat.Base.Memory.{u64}
use flchat.Pb.{Field, pb_ltype, Outcome, ok, err, stuck, ◌>>=◌, ◌>>◌}
use flchat.Pb.{submsg_size_changed, stream_full}
use flchat.Pb.Encode.{pb_encode_varint}
use flchat.Pb.LType
use flchat.Pb.Ostream.{Ostream, Encoder, fail, pb_write, pb_ostream_sizing}

module _ {S : Type 0} where
  -- An effect that C leaves undefined.
  abbrev pub undefined : Encoder S
  undefined s = stuck

  -- The end of `pb_encode_submessage`: the parent takes over from the substream.
  abbrev pub resumed :
      ℕ → Ostream S → Outcome (Ostream S) (Unit {0}) → Outcome (Ostream S) (Unit {0})
  resumed size s (ok _ sub) =
      let s' : Ostream S = record s {
        state = sub.state;
        bytes_written = u64 (s.bytes_written + sub.bytes_written);
        errmsg = sub.errmsg;
      } in
      if not (sub.bytes_written == size) then fail submsg_size_changed s' else ok tt s'
  resumed size s (err sub) =
      let s' : Ostream S = record s {
        state = sub.state;
        bytes_written = u64 (s.bytes_written + sub.bytes_written);
        errmsg = sub.errmsg;
      } in
      if not (sub.bytes_written == size) then fail submsg_size_changed s' else err s'
  resumed size s stuck = stuck

  -- `pb_encode_submessage` once the size is known. `encode` is `pb_encode` of the submessage.
  abbrev pub write_submessage : Encoder S → ℕ → Encoder S
  write_submessage encode size = pb_encode_varint size >>= λ _ s. elim s.callback [
    | none ↦ pb_write [] size s
    | some callback ↦
        if ltb s.max_size (u64 (s.bytes_written + size))
        then fail stream_full s
        else resumed size s (
            encode (record {
              callback = some callback;
              state = s.state;
              max_size = size;
              bytes_written = 0;
              errmsg = none;
            }))
  ]

  unfoldable pub pb_encode_submessage : S → Encoder S → Encoder S
  pb_encode_submessage null encode s = elim (encode (pb_ostream_sizing null)) [
    | ok _ sub ↦ write_submessage encode sub.bytes_written s
    | err sub ↦ err (record s { errmsg = sub.errmsg })
    | stuck ↦ stuck
  ]

  -- `func` on `count` entries, each `step` bytes behind the last.
  unfoldable pub encode_items : ℕ → (ℕ → Encoder S) → ℕ → ℕ → Encoder S
  encode_items zero func step p s = ok tt s
  encode_items (suc count) func step p s =
      (func p >> encode_items count func step (u64 (p + step))) s

  -- `encode_array` once the size of a packed array is known.
  abbrev pub write_packed : ℕ → (ℕ → Encoder S) → ℕ → ℕ → ℕ → Encoder S
  write_packed count func step p_data size = pb_encode_varint size >>= λ _ s. elim s.callback [
    | none ↦ pb_write [] size s
    | some callback ↦ encode_items count func step p_data s
  ]

  -- The branch of `encode_array` for a packed array, behind its tag. An error in the counting is not
  -- passed on to the stream.
  abbrev pub encode_packed : S → Field → ℕ → (ℕ → Encoder S) → ℕ → Encoder S
  encode_packed null field count func p_data s =
      let write = write_packed count func field.data_size p_data in
      if pb_ltype field.type == LType.fixed32
      then write (u64 (4 * count)) s
      else if pb_ltype field.type == LType.fixed64
      then write (u64 (8 * count)) s
      else elim (encode_items count func field.data_size p_data (pb_ostream_sizing null)) [
        | ok _ sizestream ↦ write sizestream.bytes_written s
        | err _ ↦ err s
        | stuck ↦ stuck
      ]
