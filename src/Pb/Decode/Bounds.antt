-- ===== src/Pb/Decode/Bounds.antt =====
-- Termination of the varint readers of pb_decode.c and of `pb_read` with NULL, and what they leave
-- of `bytes_left`.
use flchat.Base.{
  ℕ, zero, suc, ◌+◌, ◌-◌, ◌*◌, ◌%◌, ◌^◌, ◌≤◌, ◌<◌, ◌≡◌, arith, bit_or, bit_and, inl, inr,
}
use flchat.Base.Memory.{u32, u64}
use flchat.Pb.{Outcome, ok, err, stuck, ◌>>=◌, Outcome-cases}
use flchat.Pb.Decode.{
  varint32_loop, varint32_after, pb_decode_varint32_eof, pb_decode_varint32, varint_loop,
  pb_decode_varint,
}
use flchat.Pb.Decode.Skip.{pb_readbyte_left}
use flchat.Pb.Istream.{Istream, Decoder, pb_read, pb_readbyte, skip_blocks, pb_read_null}

module _ {S : Type 0} where
  -- The outcome is a C value, and at most `n` bytes are left.
  abbrev pub LeavesAtMost : {A : Type 0} → ℕ → Outcome (Istream S) A → Type 0
  LeavesAtMost n (ok a s) = s.bytes_left ≤ n
  LeavesAtMost n (err s) = s.bytes_left ≤ n
  LeavesAtMost n stuck = ⊥

  pub pb_read_bound :
      (count n : ℕ) (s : Istream S) → s.bytes_left ≤ n → LeavesAtMost n (pb_read count s)
  unfolding pb_read
  pb_read_bound count n s le = ground arith

  pub pb_readbyte_bound :
      (n : ℕ) (s : Istream S) → s.bytes_left ≤ n → LeavesAtMost n (pb_readbyte s)
  unfolding pb_readbyte
  pb_readbyte_bound n s le = ground arith

  -- The rule for a sequence of calls.
  pub LeavesAtMost-then :
      {A B : Type 0} (n : ℕ) (m : Decoder S A) (f : A → Decoder S B) (s : Istream S)
      → LeavesAtMost n (m s)
      → ((a : A) (t : Istream S) → m s ≡ ok a t → t.bytes_left ≤ n → LeavesAtMost n (f a t))
      → LeavesAtMost n ((m >>= f) s)
  LeavesAtMost-then n m f s h k = elim (Outcome-cases (m s)) [
    | inl (a, t, e) ↦ let le = rw e at h in rw (e, ◌>>=◌) (k a t e le)
    | inr (inl (t, e)) ↦ let le = rw e at h in rw (e, ◌>>=◌) le
    | inr (inr e) ↦ let no = rw e at h in absurd no
  ]

  skip_blocks_bound :
      (fuel count n : ℕ) (s : Istream S)
      → count < fuel
      → s.bytes_left ≤ n
      → LeavesAtMost n (skip_blocks fuel count s)
  unfolding skip_blocks
  skip_blocks_bound zero count n s h le = absurd (omega arith)
  skip_blocks_bound (suc fuel) count n s h le = elim (Outcome-cases (pb_read 16 s)) [
    | inl (bytes, t, e) ↦ ground (
      arith,
      e,
      pb_read_bound 16 n s le,
      pb_read_bound count n s le,
      skip_blocks_bound fuel (count - 16) n t,
    )
    | inr (inl (t, e)) ↦ ground (arith, e, pb_read_bound 16 n s le, pb_read_bound count n s le)
    | inr (inr e) ↦ ground (arith, e, pb_read_bound 16 n s le, pb_read_bound count n s le)
  ]

  -- `pb_read` with NULL for the buffer returns on every stream, with every callback, and
  -- where at most `n` bytes are left before, at most `n` are left after, success or failure.
  pub pb_read_null_bound :
      (count n : ℕ) (s : Istream S) → s.bytes_left ≤ n → LeavesAtMost n (pb_read_null count s)
  unfolding pb_read_null
  pb_read_null_bound count n s le =
      ground (arith, skip_blocks_bound (suc count) count n s, pb_read_bound count n s le)

  varint32_loop_bound :
      (fuel bitpos acc n : ℕ) (s : Istream S)
      → s.bytes_left < fuel
      → s.bytes_left ≤ n
      → LeavesAtMost n (varint32_loop fuel bitpos acc s)
  unfolding varint32_loop
  varint32_loop_bound zero bitpos acc n s h le = absurd (omega arith)
  varint32_loop_bound (suc fuel) bitpos acc n s h le =
      LeavesAtMost-then n pb_readbyte _ s (pb_readbyte_bound n s le) λ byte t e le'. ground (
        arith,
        pb_readbyte_left s t byte e,
        varint32_loop_bound fuel ((bitpos + 7) % 256) acc n t,
        varint32_loop_bound fuel ((bitpos + 7) % 256)
            (bit_or acc (u32 (bit_and byte 0x7f * 2 ^ bitpos))) n t,
      )

  varint32_after_bound :
      (byte n : ℕ) (s : Istream S) → s.bytes_left ≤ n → LeavesAtMost n (varint32_after byte s)
  unfolding varint32_after
  varint32_after_bound byte n s le =
      ground (arith, varint32_loop_bound (suc s.bytes_left) 7 (bit_and byte 0x7f) n s)

  pub pb_decode_varint32_eof_bound :
      (n : ℕ) (s : Istream S) → s.bytes_left ≤ n → LeavesAtMost n (pb_decode_varint32_eof s).0
  unfolding pb_decode_varint32_eof
  pb_decode_varint32_eof_bound n s le = elim (Outcome-cases (pb_readbyte s)) [
    | inl (byte, t, e) ↦ ground (arith, e, pb_readbyte_bound n s le, varint32_after_bound byte n t)
    | inr (inl (t, e)) ↦ ground (arith, e, pb_readbyte_bound n s le)
    | inr (inr e) ↦ ground (arith, e, pb_readbyte_bound n s le)
  ]

  -- `pb_decode_varint32` returns on every stream, with every callback, and
  -- where at most `n` bytes are left before, at most `n` are left after, success or failure.
  pub pb_decode_varint32_bound :
      (n : ℕ) (s : Istream S) → s.bytes_left ≤ n → LeavesAtMost n (pb_decode_varint32 s)
  unfolding pb_decode_varint32
  pb_decode_varint32_bound n s le = pb_decode_varint32_eof_bound n s le

  varint_loop_bound :
      (fuel bitpos acc n : ℕ) (s : Istream S)
      → 70 ≤ bitpos + 7 * fuel
      → bitpos ≤ 70
      → s.bytes_left ≤ n
      → LeavesAtMost n (varint_loop (suc fuel) bitpos acc s)
  unfolding varint_loop
  varint_loop_bound zero bitpos acc n s h top le = ground arith
  varint_loop_bound (suc fuel) bitpos acc n s h top le = elim (Outcome-cases (pb_readbyte s)) [
    | inl (byte, t, e) ↦ ground (
      arith,
      e,
      pb_readbyte_bound n s le,
      varint_loop_bound fuel (bitpos + 7) (bit_or acc (u64 (bit_and byte 0x7f * 2 ^ bitpos))) n t,
    )
    | inr (inl (t, e)) ↦ ground (arith, e, pb_readbyte_bound n s le)
    | inr (inr e) ↦ ground (arith, e, pb_readbyte_bound n s le)
  ]

  -- `pb_decode_varint` returns on every stream, with every callback, and
  -- where at most `n` bytes are left before, at most `n` are left after, success or failure.
  pub pb_decode_varint_bound :
      (n : ℕ) (s : Istream S) → s.bytes_left ≤ n → LeavesAtMost n (pb_decode_varint s)
  unfolding pb_decode_varint
  pb_decode_varint_bound n s le = varint_loop_bound 10 0 0 n s (omega arith) (omega arith) le
