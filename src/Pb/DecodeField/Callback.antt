-- ===== src/Pb/DecodeField/Callback.antt =====
-- The callback of a stream while `pb_decode_varint32` of pb_decode.c reads from it.
use flchat.Base.{
  ℕ, zero, suc, ◌+◌, ◌*◌, ◌%◌, ◌^◌, ◌≤◌, ◌≡◌, arith, Option, some, List, length, inl, inr, bit_and,
  bit_or,
}
use flchat.Base.Memory.{u32}
use flchat.Pb.{Outcome, ok, err, stuck, Outcome-cases}
use flchat.Pb.Decode.{varint32_loop, varint32_after, pb_decode_varint32_eof, pb_decode_varint32}
use flchat.Pb.Istream.{Istream, pb_readbyte}

-- A callback gives at most the bytes that it is asked for.
abbrev pub IsBounded : {S : Type 0} → (S → ℕ → S × Option (List ℕ)) → Type 0
IsBounded {S} callback =
    (state state' : S) (count : ℕ) (bytes : List ℕ)
    → callback state count ≡ (state', some bytes)
    → length bytes ≤ count

module _ {S : Type 0} (c : S → ℕ → S × Option (List ℕ)) where
  abbrev pub KeepsCallback : {A : Type 0} → Outcome (Istream S) A → Type 0
  KeepsCallback (ok a s) = s.callback ≡ c
  KeepsCallback (err s) = s.callback ≡ c
  KeepsCallback stuck = Unit {0}

  pub pb_readbyte-KeepsCallback : (s : Istream S) → s.callback ≡ c → KeepsCallback (pb_readbyte s)
  unfolding pb_readbyte
  pb_readbyte-KeepsCallback s h = ground arith

  varint32_loop-KeepsCallback :
      (fuel bitpos acc : ℕ) (s : Istream S)
      → s.callback ≡ c
      → KeepsCallback (varint32_loop fuel bitpos acc s)
  unfolding varint32_loop
  varint32_loop-KeepsCallback zero bitpos acc s h = tt
  varint32_loop-KeepsCallback (suc fuel) bitpos acc s h = elim (Outcome-cases (pb_readbyte s)) [
    | inl (byte, t, e) ↦ ground (
      arith,
      e,
      pb_readbyte-KeepsCallback s h,
      varint32_loop-KeepsCallback fuel ((bitpos + 7) % 256) acc t,
      varint32_loop-KeepsCallback fuel ((bitpos + 7) % 256)
          (bit_or acc (u32 (bit_and byte 0x7f * 2 ^ bitpos))) t,
    )
    | inr (inl (t, e)) ↦ ground (arith, e, pb_readbyte-KeepsCallback s h)
    | inr (inr e) ↦ ground (arith, e, pb_readbyte-KeepsCallback s h)
  ]

  varint32_after-KeepsCallback :
      (byte : ℕ) (s : Istream S) → s.callback ≡ c → KeepsCallback (varint32_after byte s)
  unfolding varint32_after
  varint32_after-KeepsCallback byte s h =
      ground (arith, varint32_loop-KeepsCallback (suc s.bytes_left) 7 (bit_and byte 0x7f) s)

  pub pb_decode_varint32-KeepsCallback :
      (s : Istream S) → s.callback ≡ c → KeepsCallback (pb_decode_varint32 s)
  unfolding pb_decode_varint32 pb_decode_varint32_eof
  pb_decode_varint32-KeepsCallback s h = elim (Outcome-cases (pb_readbyte s)) [
    | inl (byte, t, e) ↦
        ground (arith, e, pb_readbyte-KeepsCallback s h, varint32_after-KeepsCallback byte t)
    | inr (inl (t, e)) ↦ ground (arith, e, pb_readbyte-KeepsCallback s h)
    | inr (inr e) ↦ ground (arith, e, pb_readbyte-KeepsCallback s h)
  ]
