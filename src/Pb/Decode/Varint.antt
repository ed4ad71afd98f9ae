-- ===== src/Pb/Decode/Varint.antt =====
-- `pb_decode_varint` on the digits in base 128.
use flchat.Base.{
  ℕ, zero, suc, ◌+◌, ◌*◌, ◌/◌, ◌%◌, ◌^◌, ◌≤◌, ◌<◌, ◌≡◌, ap, arith, Option, List, ◌∷◌, ◌++◌, length,
}
use flchat.Base.Bits.{and_low_seven, and_top_bit, or_above}
use flchat.Pb.{Error, ok}
use flchat.Pb.Decode.{varint_loop, pb_decode_varint}
use flchat.Pb.Decode.Reads.{reading, Reads, pb_readbyte-Reads}
use flchat.Pb.Encode.Shape.{base128}
use native.Mathlib.Numerals.{towards_suc}
use native.Mathlib.Nat.{div-add-mod, pow-suc}

pub two-pow-add_seven : (b : ℕ) → 2 ^ (b + 7) ≡ 128 * 2 ^ b
two-pow-add_seven b = simp towards_suc (omega arith)

-- A number is its lowest digit and the others, at every weight.
pub lowest_digit : (v p : ℕ) → v * p ≡ v % 128 * p + v / 128 * (128 * p)
lowest_digit v p = omega (arith, ap (λ (t : ℕ). t * p) (div-add-mod v 128))

-- The two rounds of the loop: on a last byte, and on a byte with the top bit set.
last_round :
    (fuel bitpos acc v : ℕ) (rest : List ℕ) (left : ℕ) (e : Option Error)
    → v < 128
    → bitpos < 64
    → acc < 2 ^ bitpos
    → acc + v * 2 ^ bitpos < 2 ^ 64
    → varint_loop (suc fuel) bitpos acc (reading (v ∷ rest) (suc left) e)
      ≡ ok (acc + v * 2 ^ bitpos) (reading rest left e)
unfolding varint_loop
last_round fuel bitpos acc v rest left e hv hb ha fits =
    ground (
      arith,
      pb_readbyte-Reads v rest left e,
      and_low_seven v,
      and_top_bit v,
      or_above bitpos acc v,
    )

inner_round :
    (fuel bitpos acc g : ℕ) (rest : List ℕ) (left : ℕ) (e : Option Error)
    → g < 128
    → bitpos < 64
    → acc < 2 ^ bitpos
    → acc + g * 2 ^ bitpos < 2 ^ 64
    → varint_loop (suc fuel) bitpos acc (reading ((g + 128) ∷ rest) (suc left) e)
      ≡ varint_loop fuel (bitpos + 7) (acc + g * 2 ^ bitpos) (reading rest left e)
unfolding varint_loop
inner_round fuel bitpos acc g rest left e hg hb ha fits = ground (
  arith,
  pb_readbyte-Reads (g + 128) rest left e,
  and_low_seven (g + 128),
  and_top_bit (g + 128),
  or_above bitpos acc g,
)

pub weighted : (g p : ℕ) → g < 128 → g * p ≤ 127 * p
weighted g p h = grind arith

varint_loop-base128 :
    (k fuel bitpos acc v : ℕ) (rest : List ℕ) (left : ℕ) (e : Option Error)
    → k < fuel
    → bitpos + 7 * k < 64
    → v < 128 ^ suc k
    → acc < 2 ^ bitpos
    → acc + v * 2 ^ bitpos < 2 ^ 64
    → varint_loop fuel bitpos acc (reading (base128 k v ++ rest) (length (base128 k v) + left) e)
      ≡ ok (acc + v * 2 ^ bitpos) (reading rest left e)
unfolding base128
varint_loop-base128 zero zero bitpos acc v rest left e hf hb hv ha fits = absurd (omega arith)
varint_loop-base128 (suc k) zero bitpos acc v rest left e hf hb hv ha fits = absurd (omega arith)
varint_loop-base128 zero (suc fuel) bitpos acc v rest left e hf hb hv ha fits =
    ground (arith, last_round fuel bitpos acc v rest left e)
varint_loop-base128 (suc k) (suc fuel) bitpos acc v rest left e hf hb hv ha fits = ground (
  arith,
  last_round fuel bitpos acc v rest left e,
  inner_round fuel bitpos acc (v % 128) (base128 k (v / 128) ++ rest)
      (length (base128 k (v / 128)) + left) e,
  two-pow-add_seven bitpos,
  lowest_digit v (2 ^ bitpos),
  pow-suc 128 (suc k),
  weighted (v % 128) (2 ^ bitpos),
  varint_loop-base128 k fuel (bitpos + 7) (acc + v % 128 * 2 ^ bitpos) (v / 128) rest left e,
)

-- `pb_decode_varint` reads the digits back.
pub pb_decode_varint-Reads : (v : ℕ) → v < 2 ^ 64 → Reads pb_decode_varint (base128 9 v) v
unfolding pb_decode_varint
pb_decode_varint-Reads v h rest left e = ground (arith, varint_loop-base128 9 11 0 0 v rest left e)
