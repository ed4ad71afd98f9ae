-- ===== src/Pb/Decode/FieldBounds.antt =====
-- Termination of the functions that are built on the varint loops of pb_decode.c, and what they
-- leave of `bytes_left`.
use flchat.Base.{ℕ, zero, suc, ◌+◌, ◌≤◌, ◌<◌, ◌≡◌, arith, List, inl, inr}
use flchat.Pb.{ok, Outcome-cases}
use flchat.Pb.Decode.{
  pb_decode_varint32, pb_decode_varint, skip_varint_loop, pb_skip_varint, pb_skip_string,
  pb_decode_tag, pb_skip_field, raw_varint, read_raw_value, pb_make_string_substream,
  pb_close_string_substream, pb_decode_svarint,
}
use flchat.Pb.Decode.Bounds.{
  LeavesAtMost, LeavesAtMost-then, pb_read_bound, pb_read_null_bound, pb_decode_varint32_eof_bound,
  pb_decode_varint32_bound, pb_decode_varint_bound,
}
use flchat.Pb.Istream.{Istream, pb_read, pb_read_null}

module _ {S : Type 0} where
  pb_read_left :
      (s s' : Istream S) (bytes : List ℕ)
      → pb_read 1 s ≡ ok bytes s'
      → s.bytes_left ≡ suc s'.bytes_left
  unfolding pb_read
  pb_read_left s s' bytes h = ground arith

  skip_varint_loop_bound :
      (fuel n : ℕ) (s : Istream S)
      → s.bytes_left < fuel
      → s.bytes_left ≤ n
      → LeavesAtMost n (skip_varint_loop fuel s)
  unfolding skip_varint_loop
  skip_varint_loop_bound zero n s h le = absurd (omega arith)
  skip_varint_loop_bound (suc fuel) n s h le = elim (Outcome-cases (pb_read 1 s)) [
    | inl (bytes, t, e) ↦ ground (
      arith,
      e,
      pb_read_left s t bytes e,
      pb_read_bound 1 n s le,
      skip_varint_loop_bound fuel n t,
    )
    | inr (inl (t, e)) ↦ ground (arith, e, pb_read_bound 1 n s le)
    | inr (inr e) ↦ ground (arith, e, pb_read_bound 1 n s le)
  ]

  pub pb_skip_varint_bound :
      (n : ℕ) (s : Istream S) → s.bytes_left ≤ n → LeavesAtMost n (pb_skip_varint s)
  unfolding pb_skip_varint
  pb_skip_varint_bound n s le = skip_varint_loop_bound (suc s.bytes_left) n s (omega arith) le

  pub pb_skip_string_bound :
      (n : ℕ) (s : Istream S) → s.bytes_left ≤ n → LeavesAtMost n (pb_skip_string s)
  unfolding pb_skip_string
  pb_skip_string_bound n s le =
      LeavesAtMost-then n pb_decode_varint32 pb_read_null s (pb_decode_varint32_bound n s le)
        (λ length t e le'. pb_read_null_bound length n t le')

  pub pb_decode_tag_bound :
      (n : ℕ) (s : Istream S) → s.bytes_left ≤ n → LeavesAtMost n (pb_decode_tag s).0
  unfolding pb_decode_tag
  pb_decode_tag_bound n s le = ground (arith, pb_decode_varint32_eof_bound n s le)

  -- `pb_skip_field`, for every number as the wire type, returns on every stream, with every callback, and
  -- where at most `n` bytes are left before, at most `n` are left after, success or failure.
  pub pb_skip_field_bound :
      (wire_type n : ℕ) (s : Istream S)
      → s.bytes_left ≤ n
      → LeavesAtMost n (pb_skip_field wire_type s)
  unfolding pb_skip_field
  pb_skip_field_bound wire_type n s le = ground (
    arith,
    pb_skip_varint_bound n s le,
    pb_read_null_bound 8 n s le,
    pb_skip_string_bound n s le,
    pb_read_null_bound 4 n s le,
  )

  -- `buf` is never overrun: at most `left` bytes come out.
  raw_varint_bound :
      (left n : ℕ) (s : Istream S) → s.bytes_left ≤ n → LeavesAtMost n (raw_varint left s)
  unfolding raw_varint
  raw_varint_bound zero n s le = le
  raw_varint_bound (suc left) n s le = elim (Outcome-cases (pb_read 1 s)) [
    | inl (bytes, t, e) ↦ ground (arith, e, pb_read_bound 1 n s le, raw_varint_bound left n t)
    | inr (inl (t, e)) ↦ ground (arith, e, pb_read_bound 1 n s le)
    | inr (inr e) ↦ ground (arith, e, pb_read_bound 1 n s le)
  ]

  -- `read_raw_value`, for every wire type and size, returns on every stream, with every callback, and
  -- where at most `n` bytes are left before, at most `n` are left after, success or failure.
  pub read_raw_value_bound :
      (wire_type size n : ℕ) (s : Istream S)
      → s.bytes_left ≤ n
      → LeavesAtMost n (read_raw_value wire_type size s)
  unfolding read_raw_value
  read_raw_value_bound wire_type size n s le =
      ground (arith, raw_varint_bound size n s le, pb_read_bound 8 n s le, pb_read_bound 4 n s le)

  pub pb_make_string_substream_bound :
      (n : ℕ) (s : Istream S) → s.bytes_left ≤ n → LeavesAtMost n (pb_make_string_substream s)
  unfolding pb_make_string_substream
  pb_make_string_substream_bound n s le =
      LeavesAtMost-then n pb_decode_varint32 _ s (pb_decode_varint32_bound n s le)
        (λ size t e le'. ground arith)

  -- Where `pb_make_string_substream` succeeds, on any stream, the substream may read exactly the
  -- length that `pb_decode_varint32` reads, and the parent what remains of the bytes behind it.
  pub pb_make_string_substream_shares :
      (s s' sub : Istream S)
      → pb_make_string_substream s ≡ ok sub s'
      → (size : ℕ) × (t : Istream S) × (pb_decode_varint32 s ≡ ok size t)
        × (sub.bytes_left ≡ size)
        × (s'.bytes_left + size ≡ t.bytes_left)
  unfolding pb_make_string_substream
  pb_make_string_substream_shares s s' sub h = elim (Outcome-cases (pb_decode_varint32 s)) [
    | inl (size, t, e) ↦ (size, t, e, ground arith, ground arith)
    | inr (inl (t, e)) ↦ absurd (ground arith)
    | inr (inr e) ↦ absurd (ground arith)
  ]

  -- `pb_close_string_substream`, for every substream, returns on every stream, with every callback, and
  -- where at most `n` bytes are left before, at most `n` are left after, success or failure.
  pub pb_close_string_substream_bound :
      (n : ℕ) (sub s : Istream S)
      → s.bytes_left ≤ n
      → LeavesAtMost n (pb_close_string_substream sub s)
  unfolding pb_close_string_substream
  pb_close_string_substream_bound n sub s le =
      ground (arith, pb_read_null_bound sub.bytes_left sub.bytes_left sub)

  pub pb_decode_svarint_bound :
      (n : ℕ) (s : Istream S) → s.bytes_left ≤ n → LeavesAtMost n (pb_decode_svarint s)
  unfolding pb_decode_svarint
  pb_decode_svarint_bound n s le =
      LeavesAtMost-then n pb_decode_varint _ s (pb_decode_varint_bound n s le)
        (λ value t e le'. ground arith)
