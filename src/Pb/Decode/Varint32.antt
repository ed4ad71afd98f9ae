-- ===== src/Pb/Decode/Varint32.antt =====
-- `pb_decode_varint32` on the digits in base 128 of a 32-bit number.
use flchat.Base.{
  ℕ, zero, suc, ◌+◌, ◌*◌, ◌/◌, ◌%◌, ◌^◌, ◌≤◌, ◌<◌, ◌≡◌, ◌∙◌, arith, Option, List, ◌∷◌, ◌++◌, length,
  ltb, Bool-cases, ltb→lt, inl, inr,
}
use flchat.Base.Bits.{and_low_seven, and_top_bit, and_high_three, or_above}
use flchat.Pb.{Error, ok}
use flchat.Pb.Decode.{varint32_loop, varint32_after, pb_decode_varint32_eof, pb_decode_varint32}
use flchat.Pb.Decode.Reads.{reading, Reads, pb_readbyte-Reads}
use flchat.Pb.Decode.Varint.{two-pow-add_seven, lowest_digit, weighted}
use flchat.Pb.Encode.Shape.{base128, length-base128}
use native.Mathlib.Nat.{pow-suc}

-- The last group of a number of 32 bits has four bits.
fifth_group : (bitpos acc v : ℕ) → bitpos ≡ 28 → acc + v * 2 ^ bitpos < 2 ^ 32 → v < 16
fifth_group bitpos acc v e fits = let h = rw e at fits in omega arith

last_round :
    (fuel bitpos acc v : ℕ) (rest : List ℕ) (left : ℕ) (e : Option Error)
    → v < 128
    → bitpos ≤ 28
    → acc < 2 ^ bitpos
    → acc + v * 2 ^ bitpos < 2 ^ 32
    → varint32_loop (suc fuel) bitpos acc (reading (v ∷ rest) (suc left) e)
      ≡ ok (acc + v * 2 ^ bitpos) (reading rest left e)
unfolding varint32_loop
last_round fuel bitpos acc v rest left e hv hb ha fits = ground (
  arith,
  pb_readbyte-Reads v rest left e,
  and_low_seven v,
  and_top_bit v,
  and_high_three v,
  or_above bitpos acc v,
  fifth_group bitpos acc v,
)

pub inner_round :
    (fuel bitpos acc g : ℕ) (rest : List ℕ) (left : ℕ) (e : Option Error)
    → g < 128
    → bitpos ≤ 28
    → acc < 2 ^ bitpos
    → acc + g * 2 ^ bitpos < 2 ^ 32
    → varint32_loop (suc fuel) bitpos acc (reading ((g + 128) ∷ rest) (suc left) e)
      ≡ varint32_loop fuel (bitpos + 7) (acc + g * 2 ^ bitpos) (reading rest left e)
unfolding varint32_loop
inner_round fuel bitpos acc g rest left e hg hb ha fits = ground (
  arith,
  pb_readbyte-Reads (g + 128) rest left e,
  and_low_seven (g + 128),
  and_top_bit (g + 128),
  or_above bitpos acc g,
)

loop-base128 :
    (k fuel bitpos acc v : ℕ) (rest : List ℕ) (left : ℕ) (e : Option Error)
    → length (base128 k v) ≤ fuel
    → bitpos + 7 * k ≤ 28
    → v < 128 ^ suc k
    → acc < 2 ^ bitpos
    → acc + v * 2 ^ bitpos < 2 ^ 32
    → varint32_loop fuel bitpos acc (reading (base128 k v ++ rest) (length (base128 k v) + left) e)
      ≡ ok (acc + v * 2 ^ bitpos) (reading rest left e)
unfolding base128
loop-base128 zero zero bitpos acc v rest left e hf hb hv ha fits = absurd (omega arith)
loop-base128 (suc k) zero bitpos acc v rest left e hf hb hv ha fits =
    absurd (ground (arith, length-base128 (suc k) v))
loop-base128 zero (suc fuel) bitpos acc v rest left e hf hb hv ha fits =
    ground (arith, last_round fuel bitpos acc v rest left e)
loop-base128 (suc k) (suc fuel) bitpos acc v rest left e hf hb hv ha fits = ground (
  arith,
  last_round fuel bitpos acc v rest left e,
  inner_round fuel bitpos acc (v % 128) (base128 k (v / 128) ++ rest)
      (length (base128 k (v / 128)) + left) e,
  two-pow-add_seven bitpos,
  lowest_digit v (2 ^ bitpos),
  pow-suc 128 (suc k),
  weighted (v % 128) (2 ^ bitpos),
  loop-base128 k fuel (bitpos + 7) (acc + v % 128 * 2 ^ bitpos) (v / 128) rest left e,
)

-- More room than the number needs changes nothing.
base128_room : (k v : ℕ) → v < 128 ^ suc k → base128 (suc k) v ≡ base128 k v
unfolding base128
base128_room zero v h = ground arith
base128_room (suc k) v h = ground (arith, pow-suc 128 (suc k), base128_room k (v / 128))

five_digits : (v : ℕ) → v < 2 ^ 32 → base128 9 v ≡ base128 4 v
five_digits v h = ground (
  arith,
  base128_room 8 v,
  base128_room 7 v,
  base128_room 6 v,
  base128_room 5 v,
  base128_room 4 v,
)

-- The first byte is read before the loop.
pub first_byte :
    (b : ℕ) (l : List ℕ) (n left : ℕ) (e : Option Error)
    → n ≡ suc left
    → pb_decode_varint32 (reading (b ∷ l) n e) ≡ varint32_after b (reading l left e)
unfolding pb_decode_varint32 pb_decode_varint32_eof
first_byte b l n left e h = rw h (ground (arith, pb_readbyte-Reads b l left e))

after_single :
    (v : ℕ) (rest : List ℕ) (left : ℕ) (e : Option Error)
    → v < 128
    → varint32_after v (reading rest left e) ≡ ok v (reading rest left e)
unfolding varint32_after
after_single v rest left e h = ground (arith, and_top_bit v)

after_marked :
    (k v : ℕ) (rest : List ℕ) (left : ℕ) (e : Option Error)
    → 7 + 7 * k ≤ 28
    → v < 128 ^ suc (suc k)
    → v < 2 ^ 32
    → varint32_after
        (v % 128 + 128)
        (reading (base128 k (v / 128) ++ rest) (length (base128 k (v / 128)) + left) e)
      ≡ ok v (reading rest left e)
unfolding varint32_after
after_marked k v rest left e hk hv h = ground (
  arith,
  and_top_bit (v % 128 + 128),
  and_low_seven (v % 128 + 128),
  pow-suc 128 (suc k),
  loop-base128 k (suc (length (base128 k (v / 128)) + left)) 7 (v % 128) (v / 128) rest left e,
  length-base128 k (v / 128),
)

after-base128 :
    (k v : ℕ) (rest : List ℕ) (left : ℕ) (e : Option Error)
    → 7 + 7 * k ≤ 28
    → v < 128 ^ suc (suc k)
    → v < 2 ^ 32
    → pb_decode_varint32 (reading (base128 (suc k) v ++ rest) (length (base128 (suc k) v) + left) e)
      ≡ ok v (reading rest left e)
unfolding base128
after-base128 k v rest left e hk hv h = elim (Bool-cases (ltb v 128)) [
  | inl small ↦
      rw small
        (first_byte v rest _ left e (omega arith) ∙ after_single v rest left e (ltb→lt v 128 small))
  | inr large ↦ rw large (
      first_byte (v % 128 + 128) (base128 k (v / 128) ++ rest) _
        (length (base128 k (v / 128)) + left) e (omega arith)
      ∙ after_marked k v rest left e hk hv h)
]

pub pb_decode_varint32-Reads : (v : ℕ) → v < 2 ^ 32 → Reads pb_decode_varint32 (base128 9 v) v
unfolding pb_decode_varint32
pb_decode_varint32-Reads v h rest left e =
    rw (five_digits v h) (after-base128 3 v rest left e (omega arith) (omega arith) h)
