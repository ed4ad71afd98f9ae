-- ===== src/Pb/Encode/Shape.antt =====
-- The bytes that `pb_encode_varint` writes, in plain arithmetic.
use flchat.Base.{
  ℕ, zero, suc, ◌+◌, ◌/◌, ◌%◌, ◌^◌, ◌≤◌, ◌<◌, ◌≡◌, ◌≢◌, arith, List, [], ◌∷◌, ltb, if◌then◌else◌,
  length, All, bit_and, bit_or,
}
use flchat.Base.Bits.{and_low_seven, or_top_bit}
use flchat.Pb.Encode.{varint_groups, clear_last, pb_encode_varint}
use flchat.Pb.Ostream.{pb_write}
use native.Mathlib.Nat.{pow-suc}

-- A number in base 128, lowest digit first, with 128 added to every digit but the last; `k` bounds
-- the digits after the first.
unfoldable pub base128 : ℕ → ℕ → List ℕ
base128 zero v = v ∷ []
base128 (suc k) v =
    let higher = base128 k (v / 128) in if ltb v 128 then v ∷ [] else (v % 128 + 128) ∷ higher

marked_group : (v : ℕ) → bit_or (bit_and v 0x7f) 0x80 ≡ v % 128 + 128
marked_group v = omega (arith, and_low_seven v, or_top_bit (bit_and v 0x7f))

last_group : (v : ℕ) → v < 128 → bit_and (bit_or (bit_and v 0x7f) 0x80) 0x7f ≡ v
last_group v h = omega (arith, marked_group v, and_low_seven (bit_or (bit_and v 0x7f) 0x80))

clear_last-groups :
    (k v : ℕ) → v ≢ 0 → v < 128 ^ suc k → clear_last (varint_groups (suc k) v) ≡ base128 k v
unfolding varint_groups clear_last base128
clear_last-groups zero v ne h = ground (arith, last_group v)
clear_last-groups (suc k) v ne h =
    ground (arith, last_group v, marked_group v, clear_last-groups k (v / 128))

-- On every stream, `pb_encode_varint` of a 64-bit number is one `pb_write` of its digits in base
-- 128, lowest first, with 128 added to each but the last.
pub pb_encode_varint-base128 :
    {S : Type 0} (v : ℕ)
    → v < 2 ^ 64
    → pb_encode_varint {S = S} v ≡ pb_write (base128 9 v) (length (base128 9 v))
unfolding pb_encode_varint base128
pb_encode_varint-base128 v h = ground (arith, clear_last-groups 9 v)

pub base128-All : (k v : ℕ) → v < 128 ^ suc k → All (λ b. b < 256) (base128 k v)
unfolding base128
base128-All zero v h = omega arith
base128-All (suc k) v h =
    ground (arith, base128-All k (v / 128) (omega (arith, pow-suc 128 (suc k))))

pub length-base128 : (k v : ℕ) → (1 ≤ length (base128 k v)) × (length (base128 k v) ≤ k + 1)
unfolding base128
length-base128 zero v = omega arith
length-base128 (suc k) v = ground (arith, length-base128 k (v / 128))

-- No digit is to spare.
pub base128_minimal : (k v n : ℕ) → length (base128 k v) ≡ suc (suc n) → 128 ^ suc n ≤ v
unfolding base128
base128_minimal zero v n e = absurd (omega arith)
base128_minimal (suc k) v zero e = ground arith
base128_minimal (suc k) v (suc n) e =
    ground (arith, pow-suc 128 (suc n), base128_minimal k (v / 128) n)
