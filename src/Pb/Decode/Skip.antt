-- ===== src/Pb/Decode/Skip.antt =====
-- `pb_skip_varint` beside `pb_decode_varint`, both of pb_decode.c.
use flchat.Base.{
  ℕ, zero, suc, ◌+◌, ◌*◌, ◌%◌, ◌^◌, ◌<◌, ◌≡◌, arith, List, get_or, ltb, ◌==◌, bit_or, bit_and, true,
  false, Bool-cases, inl, inr,
}
use flchat.Pb.{Outcome, ok, err, stuck, Outcome-cases}
use flchat.Base.Memory.{u64}
use flchat.Pb.Decode.{varint_loop, pb_decode_varint, skip_varint_loop, pb_skip_varint}
use flchat.Pb.Istream.{Istream, pb_read, pb_readbyte}

module _ {S : Type 0} where
  -- `pb_readbyte` is `pb_read` of one byte.
  abbrev first_of : Outcome (Istream S) (List ℕ) → Outcome (Istream S) ℕ
  first_of (ok bytes t) = ok (get_or bytes 0 0) t
  first_of (err t) = err t
  first_of stuck = stuck

  pub pb_readbyte-pb_read : (s : Istream S) → pb_readbyte s ≡ first_of (pb_read 1 s)
  unfolding pb_readbyte pb_read
  pb_readbyte-pb_read s = elim (Bool-cases (s.bytes_left == 0)) [
    | inl end ↦ let short : ltb s.bytes_left 1 ≡ true = ground arith in rw (end, short)
    | inr more ↦
        let long : ltb s.bytes_left 1 ≡ false = ground arith in rw (more, long) (ground arith)
  ]

  -- Each byte counts.
  pub pb_readbyte_left :
      (s s' : Istream S) (b : ℕ) → pb_readbyte s ≡ ok b s' → s.bytes_left ≡ suc s'.bytes_left
  unfolding pb_readbyte
  pb_readbyte_left s s' b h = ground arith

  skip-decode_loop :
      (fuel bitpos acc : ℕ) (s s' : Istream S) (v room : ℕ)
      → varint_loop fuel bitpos acc s ≡ ok v s'
      → s.bytes_left < room
      → skip_varint_loop room s ≡ ok tt s'
  unfolding varint_loop skip_varint_loop
  skip-decode_loop zero bitpos acc s s' v room h enough = absurd (cc)
  skip-decode_loop (suc fuel) bitpos acc s s' v zero h enough = absurd (omega arith)
  skip-decode_loop (suc fuel) bitpos acc s s' v (suc room) h enough =
      elim (Outcome-cases (pb_readbyte s)) [
        | inl (byte, t, read) ↦ ground (
          arith,
          pb_readbyte-pb_read s,
          pb_readbyte_left s t byte read,
          skip-decode_loop fuel ((bitpos + 7) % 256)
              (bit_or acc (u64 (bit_and byte 0x7f * 2 ^ bitpos))) t s' v room,
        )
        | inr (inl (t, failed)) ↦ ground arith
        | inr (inr out_of_fuel) ↦ ground arith
      ]

  -- On every stream, with every callback: where `pb_decode_varint` succeeds, `pb_skip_varint`
  -- succeeds and leaves the stream as `pb_decode_varint` does.
  pub pb_skip_varint-pb_decode_varint :
      (s s' : Istream S) (v : ℕ) → pb_decode_varint s ≡ ok v s' → pb_skip_varint s ≡ ok tt s'
  unfolding pb_decode_varint pb_skip_varint
  pb_skip_varint-pb_decode_varint s s' v h =
      skip-decode_loop 11 0 0 s s' v (suc s.bytes_left) h (omega arith)
