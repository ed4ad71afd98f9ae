-- ===== src/Pb/Istream.antt =====
-- The input streams of FLChat/Pods/nanopb/pb_decode.c: `buf_read`, `pb_read`, `pb_readbyte` and
-- `pb_istream_from_buffer`. A stream's callback is the application's code or `buf_read`; its state
-- has the type S. The callback returns its new state, and the bytes if it succeeds.
use flchat.Base.{
  ℕ, zero, suc, ◌-◌, Bool, true, false, Option, none, some, List, take, drop, get_or, ltb, ◌==◌,
  if◌then◌else◌,
}
use flchat.Pb.{Error, set_error, Outcome, ok, err, stuck, ◌>>=◌, ◌>>◌, return}
use flchat.Pb.{io_error, end_of_stream}

pub record Istream (S : Type 0) : Type 0 where
  pub callback : S → ℕ → S × Option (List ℕ)
  -- Whether `callback` is `buf_read`.
  pub from_buffer : Bool
  pub state : S
  pub bytes_left : ℕ
  pub errmsg : Option Error

-- The state is the memory from the stream's pointer on.
unfoldable pub buf_read : List ℕ → ℕ → List ℕ × Option (List ℕ)
buf_read source count = (drop count source, some (take count source))

unfoldable pub pb_istream_from_buffer : List ℕ → ℕ → Istream (List ℕ)
pb_istream_from_buffer buf bufsize = record {
  callback = buf_read;
  from_buffer = true;
  state = buf;
  bytes_left = bufsize;
  errmsg = none;
}

abbrev pub Decoder : Type 0 → Type 0 → Type 0
Decoder S A = Istream S → Outcome (Istream S) A

module _ {S : Type 0} where
  -- PB_RETURN_ERROR
  abbrev pub fail : {A : Type 0} → Error → Decoder S A
  fail e s = err (record s { errmsg = set_error s.errmsg e })

  -- What `pb_read` and `pb_readbyte` make of the callback's answer for `count` bytes.
  abbrev received : ℕ → S × Option (List ℕ) → Decoder S (List ℕ)
  received count (state, none) s = fail io_error (record s { state = state })
  received count (state, some bytes) s =
      ok bytes (record s { state = state; bytes_left = s.bytes_left - count })

  -- `pb_read` into a buffer.
  unfoldable pub pb_read : ℕ → Decoder S (List ℕ)
  pb_read count s =
      if ltb s.bytes_left count
      then fail end_of_stream s
      else received count (s.callback s.state count) s

  -- The loop of `pb_read` that skips 16 bytes at a time.
  unfoldable pub skip_blocks : ℕ → ℕ → Decoder S (Unit {0})
  skip_blocks zero count s = stuck
  skip_blocks (suc fuel) count s = elim (ltb 16 count) [
    | true ↦ (pb_read 16 >>= λ _. skip_blocks fuel (count - 16)) s
    | false ↦ (pb_read count >> return tt) s
  ]

  -- `pb_read` with NULL for the buffer.
  unfoldable pub pb_read_null : ℕ → Decoder S (Unit {0})
  pb_read_null count s =
      if s.from_buffer then (pb_read count >> return tt) s else skip_blocks (suc count) count s

  unfoldable pub pb_readbyte : Decoder S ℕ
  pb_readbyte s =
      if s.bytes_left == 0
      then fail end_of_stream s
      else (received 1 (s.callback s.state 1) >>= λ bytes. return (get_or bytes 0 0)) s
