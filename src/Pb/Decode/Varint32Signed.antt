-- ===== src/Pb/Decode/Varint32Signed.antt =====
-- `pb_decode_varint32` on the ten bytes that stand for a negative `int32_t`, and on a number that
-- does not fit 32 bits.
use flchat.Base.{
  ℕ, suc, ◌+◌, ◌-◌, ◌*◌, ◌/◌, ◌%◌, ◌^◌, ◌≤◌, ◌<◌, ◌≡◌, ◌∙◌, arith, Option, List, [], ◌∷◌, ◌++◌,
  length, refl, ap,
}
use flchat.Base.Bits.{and_low_seven, and_top_bit, or_above}
use flchat.Pb.{Error, ok}
use flchat.Pb.Decode.{varint32_loop, varint32_after, pb_decode_varint32}
use flchat.Pb.Decode.Reads.{reading, Reads, pb_readbyte-Reads}
use flchat.Pb.Decode.Varint32.{first_byte, inner_round}
use flchat.Pb.Encode.Shape.{base128}

-- A round of the loop past bit 32 changes nothing, if `result` is negative as an `int32_t` and the
-- byte is the one that is expected.
sign_round :
    (fuel bitpos acc : ℕ) (rest : List ℕ) (left : ℕ) (e : Option Error)
    → 32 ≤ bitpos
    → bitpos < 63
    → 2 ^ 31 ≤ acc
    → acc < 2 ^ 32
    → varint32_loop (suc fuel) bitpos acc (reading (0xff ∷ rest) (suc left) e)
      ≡ varint32_loop fuel (bitpos + 7) acc (reading rest left e)
unfolding varint32_loop
sign_round fuel bitpos acc rest left e lo hi neg small =
    ground (arith, pb_readbyte-Reads 0xff rest left e)

sign_end :
    (fuel acc : ℕ) (rest : List ℕ) (left : ℕ) (e : Option Error)
    → 2 ^ 31 ≤ acc
    → acc < 2 ^ 32
    → varint32_loop (suc fuel) 63 acc (reading (0x01 ∷ rest) (suc left) e)
      ≡ ok acc (reading rest left e)
unfolding varint32_loop
sign_end fuel acc rest left e neg small = ground (arith, pb_readbyte-Reads 0x01 rest left e)

-- Of the fifth group only the low four bits are kept.
fifth_round :
    (fuel acc g : ℕ) (rest : List ℕ) (left : ℕ) (e : Option Error)
    → g < 128
    → acc < 2 ^ 28
    → varint32_loop (suc fuel) 28 acc (reading ((g + 128) ∷ rest) (suc left) e)
      ≡ varint32_loop fuel 35 (acc + g % 16 * 2 ^ 28) (reading rest left e)
unfolding varint32_loop
fifth_round fuel acc g rest left e hg small = ground (
  arith,
  pb_readbyte-Reads (g + 128) rest left e,
  and_low_seven (g + 128),
  and_top_bit (g + 128),
  or_above 28 acc (g % 16),
)

-- The last five bytes of a negative number.
abbrev sign_tail : List ℕ → List ℕ
sign_tail rest = 0xff ∷ 0xff ∷ 0xff ∷ 0xff ∷ 0x01 ∷ rest

abbrev five : ℕ → ℕ
five n = suc (suc (suc (suc (suc n))))

loop-sign_tail :
    (fuel acc : ℕ) (rest : List ℕ) (left : ℕ) (e : Option Error)
    → 2 ^ 31 ≤ acc
    → acc < 2 ^ 32
    → varint32_loop (five fuel) 35 acc (reading (sign_tail rest) (five left) e)
      ≡ ok acc (reading rest left e)
loop-sign_tail fuel acc rest left e lo hi =
    sign_round _ 35 acc _ _ e (omega arith) (omega arith) lo hi
    ∙ sign_round _ 42 acc _ _ e (omega arith) (omega arith) lo hi
    ∙ sign_round _ 49 acc _ _ e (omega arith) (omega arith) lo hi
    ∙ sign_round _ 56 acc _ _ e (omega arith) (omega arith) lo hi
    ∙ sign_end fuel acc rest left e lo hi

-- The five groups below the sign extension, g0 the lowest.
abbrev four_and_tail : ℕ → ℕ → ℕ → ℕ → List ℕ → List ℕ
four_and_tail g1 g2 g3 g4 rest = (g1 + 128) ∷ (g2 + 128) ∷ (g3 + 128) ∷ (g4 + 128) ∷ sign_tail rest

loop-groups :
    (fuel g0 g1 g2 g3 g4 : ℕ) (rest : List ℕ) (left : ℕ) (e : Option Error)
    → g0 < 128
    → g1 < 128
    → g2 < 128
    → g3 < 128
    → g4 < 128
    → 120 ≤ g4
    → varint32_loop
        (suc (suc (suc (suc (five fuel)))))
        7
        g0
        (reading (four_and_tail g1 g2 g3 g4 rest) (suc (suc (suc (suc (five left))))) e)
      ≡ ok (g0 + g1 * 2 ^ 7 + g2 * 2 ^ 14 + g3 * 2 ^ 21 + g4 % 16 * 2 ^ 28) (reading rest left e)
loop-groups fuel g0 g1 g2 g3 g4 rest left e h0 h1 h2 h3 h4 neg =
    inner_round _ 7 g0 g1 _ _ e h1 (omega arith) (omega arith) (omega arith)
    ∙ inner_round _ 14 _ g2 _ _ e h2 (omega arith) (omega arith) (omega arith)
    ∙ inner_round _ 21 _ g3 _ _ e h3 (omega arith) (omega arith) (omega arith)
    ∙ fifth_round _ _ g4 _ _ e h4 (omega arith)
    ∙ loop-sign_tail fuel _ rest left e (omega arith) (omega arith)

after-groups :
    (g0 g1 g2 g3 g4 : ℕ) (rest : List ℕ) (n left : ℕ) (e : Option Error)
    → n ≡ 10 + left
    → g0 < 128
    → g1 < 128
    → g2 < 128
    → g3 < 128
    → g4 < 128
    → 120 ≤ g4
    → pb_decode_varint32 (reading ((g0 + 128) ∷ four_and_tail g1 g2 g3 g4 rest) n e)
      ≡ ok (g0 + g1 * 2 ^ 7 + g2 * 2 ^ 14 + g3 * 2 ^ 21 + g4 % 16 * 2 ^ 28) (reading rest left e)
unfolding varint32_after
after-groups g0 g1 g2 g3 g4 rest n left e hn h0 h1 h2 h3 h4 neg =
    first_byte (g0 + 128) _ n (suc (suc (suc (suc (five left))))) e (omega arith)
    ∙ ground (
      arith,
      and_low_seven (g0 + 128),
      and_top_bit (g0 + 128),
      loop-groups (suc left) g0 g1 g2 g3 g4 rest left e,
    )

base128-marked : (k v : ℕ) → 128 ≤ v → base128 (suc k) v ≡ (v % 128 + 128) ∷ base128 k (v / 128)
unfolding base128
base128-marked k v h = ground arith

-- One digit more, given the others.
digit :
    (k v d w : ℕ) {ds : List ℕ}
    → 128 ≤ v
    → d ≡ v % 128 + 128
    → w ≡ v / 128
    → base128 k w ≡ ds
    → base128 (suc k) v ≡ d ∷ ds
digit k v d w h hd hw rest = rw (base128-marked k v h, ← hd, ← hw, rest)

last_digit : (v d : ℕ) → v ≡ d → base128 0 v ≡ d ∷ []
unfolding base128
last_digit v d h = rw h

-- The digits of an `int32_t` below 0 that was extended to 64 bits.
base128-negative :
    (v : ℕ)
    → 2 ^ 64 - 2 ^ 31 ≤ v
    → v < 2 ^ 64
    → base128 9 v
      ≡ (v % 128 + 128)
        ∷ four_and_tail
            (v / 2 ^ 7 % 128)
            (v / 2 ^ 14 % 128)
            (v / 2 ^ 21 % 128)
            (v / 2 ^ 28 % 128)
            []
base128-negative v lo hi = digit 8 v _ (v / 2 ^ 7) (omega arith) (omega arith) (omega arith) (
    digit 7 (v / 2 ^ 7) _ (v / 2 ^ 14) (omega arith) (omega arith) (omega arith) (
      digit 6 (v / 2 ^ 14) _ (v / 2 ^ 21) (omega arith) (omega arith) (omega arith) (
        digit 5 (v / 2 ^ 21) _ (v / 2 ^ 28) (omega arith) (omega arith) (omega arith) (
          digit 4 (v / 2 ^ 28) _ (v / 2 ^ 35) (omega arith) (omega arith) (omega arith) (
            digit 3 (v / 2 ^ 35) _ (v / 2 ^ 42) (omega arith) (omega arith) (omega arith) (
              digit 2 (v / 2 ^ 42) _ (v / 2 ^ 49) (omega arith) (omega arith) (omega arith) (
                digit 1 (v / 2 ^ 49) _ (v / 2 ^ 56) (omega arith) (omega arith) (omega arith) (
                  digit 0 (v / 2 ^ 56) _ (v / 2 ^ 63) (omega arith) (omega arith) (omega arith)
                    (last_digit (v / 2 ^ 63) 1 (omega arith))))))))))

pub pb_decode_varint32_negative-Reads :
    (v : ℕ) → 2 ^ 64 - 2 ^ 31 ≤ v → v < 2 ^ 64 → Reads pb_decode_varint32 (base128 9 v) (v % 2 ^ 32)
pb_decode_varint32_negative-Reads v lo hi rest left e = rw (base128-negative v lo hi) (
    after-groups (v % 128) (v / 2 ^ 7 % 128) (v / 2 ^ 14 % 128) (v / 2 ^ 21 % 128)
      (v / 2 ^ 28 % 128) rest _ left e refl (omega arith) (omega arith) (omega arith) (omega arith)
      (omega arith) (omega arith)
    ∙ ap (λ (t : ℕ). ok t (reading rest left e)) (omega arith))

-- A sixth byte 0 after a marked fifth: the loop ends without a look at the fifth group.
padded_end :
    (fuel acc : ℕ) (rest : List ℕ) (left : ℕ) (e : Option Error)
    → varint32_loop (suc fuel) 35 acc (reading (0x00 ∷ rest) (suc left) e)
      ≡ ok acc (reading rest left e)
unfolding varint32_loop
padded_end fuel acc rest left e = ground (arith, pb_readbyte-Reads 0x00 rest left e)

loop-padded :
    (fuel g0 g1 g2 g3 g4 : ℕ) (rest : List ℕ) (left : ℕ) (e : Option Error)
    → g0 < 128
    → g1 < 128
    → g2 < 128
    → g3 < 128
    → g4 < 128
    → varint32_loop
        (five fuel)
        7
        g0
        (reading ((g1 + 128) ∷ (g2 + 128) ∷ (g3 + 128) ∷ (g4 + 128) ∷ 0x00 ∷ rest) (five left) e)
      ≡ ok (g0 + g1 * 2 ^ 7 + g2 * 2 ^ 14 + g3 * 2 ^ 21 + g4 % 16 * 2 ^ 28) (reading rest left e)
loop-padded fuel g0 g1 g2 g3 g4 rest left e h0 h1 h2 h3 h4 =
    inner_round _ 7 g0 g1 _ _ e h1 (omega arith) (omega arith) (omega arith)
    ∙ inner_round _ 14 _ g2 _ _ e h2 (omega arith) (omega arith) (omega arith)
    ∙ inner_round _ 21 _ g3 _ _ e h3 (omega arith) (omega arith) (omega arith)
    ∙ fifth_round _ _ g4 _ _ e h4 (omega arith)
    ∙ padded_end fuel _ rest left e

after-padded :
    (g0 g1 g2 g3 g4 : ℕ) (rest : List ℕ) (n left : ℕ) (e : Option Error)
    → n ≡ 6 + left
    → g0 < 128
    → g1 < 128
    → g2 < 128
    → g3 < 128
    → g4 < 128
    → pb_decode_varint32
        (reading ((g0 + 128) ∷ (g1 + 128) ∷ (g2 + 128) ∷ (g3 + 128) ∷ (g4 + 128) ∷ 0x00 ∷ rest) n e)
      ≡ ok (g0 + g1 * 2 ^ 7 + g2 * 2 ^ 14 + g3 * 2 ^ 21 + g4 % 16 * 2 ^ 28) (reading rest left e)
unfolding varint32_after
after-padded g0 g1 g2 g3 g4 rest n left e hn h0 h1 h2 h3 h4 =
    first_byte (g0 + 128) _ n (five left) e (omega arith)
    ∙ ground (
      arith,
      and_low_seven (g0 + 128),
      and_top_bit (g0 + 128),
      loop-padded (suc left) g0 g1 g2 g3 g4 rest left e,
    )

-- The digits of a number of 35 bits, marked, and a last digit 0.
abbrev pub padded : ℕ → List ℕ
padded v =
    (v % 128 + 128)
    ∷ (v / 2 ^ 7 % 128 + 128)
    ∷ (v / 2 ^ 14 % 128 + 128)
    ∷ (v / 2 ^ 21 % 128 + 128)
    ∷ (v / 2 ^ 28 % 128 + 128)
    ∷ 0x00
    ∷ []

-- Written on six bytes, a number below 2^35 is accepted by `pb_decode_varint32` from a buffer, also
-- where it does not fit 32 bits: the bits from 32 on are dropped.
pub pb_decode_varint32-padded-Reads :
    (v : ℕ)
    → v < 2 ^ 35
    → (rest : List ℕ) (left : ℕ) (e : Option Error)
    → pb_decode_varint32 (reading (padded v ++ rest) (length (padded v) + left) e)
      ≡ ok (v % 2 ^ 32) (reading rest left e)
pb_decode_varint32-padded-Reads v h rest left e =
    after-padded (v % 128) (v / 2 ^ 7 % 128) (v / 2 ^ 14 % 128) (v / 2 ^ 21 % 128)
      (v / 2 ^ 28 % 128) rest _ left e refl (omega arith) (omega arith) (omega arith) (omega arith)
      (omega arith)
    ∙ ap (λ (t : ℕ). ok t (reading rest left e)) (omega arith)
