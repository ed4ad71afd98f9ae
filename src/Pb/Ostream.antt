-- ===== src/Pb/Ostream.antt =====
-- The output streams of FLChat/Pods/nanopb/pb_encode.c: `buf_write`, `pb_ostream_from_buffer` and
-- `pb_write`, and PB_OSTREAM_SIZING of FLChat/Pods/nanopb/pb_encode.h. A stream's callback is the
-- application's code, `buf_write`, or NULL for a stream that only counts.
use flchat.Base.{
  ℕ, ◌+◌, Bool, true, false, Option, none, some, List, take, length, ltb, if◌then◌else◌,
}
use flchat.Base.Memory.{Memory, store, u64}
use flchat.Pb.{Error, set_error, Outcome, ok, err, stream_full, io_error}

pub record Ostream (S : Type 0) : Type 0 where
  -- The callback's new state, and whether it succeeds.
  pub callback : Option (S → List ℕ → S × Bool)
  pub state : S
  pub max_size : ℕ
  pub bytes_written : ℕ
  pub errmsg : Option Error

-- The state of a stream into a buffer: the memory, and the address of the next byte.
pub record Cursor : Type 0 where
  pub memory : Memory
  pub dest : ℕ

unfoldable pub buf_write : Cursor → List ℕ → Cursor × Bool
buf_write c buf = (record { memory = store c.memory c.dest buf; dest = c.dest + length buf }, true)

unfoldable pub pb_ostream_from_buffer : Memory → ℕ → ℕ → Ostream Cursor
pb_ostream_from_buffer memory buf bufsize = record {
  callback = some buf_write;
  state = record { memory = memory; dest = buf };
  max_size = bufsize;
  bytes_written = 0;
  errmsg = none;
}

abbrev pub Encoder : Type 0 → Type 0
Encoder S = Ostream S → Outcome (Ostream S) (Unit {0})

-- PB_OSTREAM_SIZING: no callback and no size limit. `state` is NULL, any value here.
module _ {S : Type 0} where
  unfoldable pub pb_ostream_sizing : S → Ostream S
  pb_ostream_sizing null = record {
    callback = none;
    state = null;
    max_size = 0;
    bytes_written = 0;
    errmsg = none;
  }

  -- PB_RETURN_ERROR
  abbrev pub fail : Error → Encoder S
  fail e s = err (record s { errmsg = set_error s.errmsg e })

  -- `stream->bytes_written += count`, in `size_t`.
  abbrev counted : ℕ → Ostream S → Ostream S
  counted count s = record s { bytes_written = u64 (s.bytes_written + count) }

  -- `pb_write` after its callback.
  abbrev written : ℕ → S × Bool → Encoder S
  written count (state, false) s = fail io_error (record s { state = state })
  written count (state, true) s = ok tt (counted count (record s { state = state }))

  -- `buf` holds at least `count` bytes where the stream has a callback; a stream that only counts
  -- may be given NULL, here any list.
  unfoldable pub pb_write : List ℕ → ℕ → Encoder S
  pb_write buf count s = elim s.callback [
    | none ↦ ok tt (counted count s)
    | some callback ↦
        if ltb s.max_size (u64 (s.bytes_written + count))
        then fail stream_full s
        else written count (callback s.state (take count buf)) s
  ]
