-- ===== src/Base/Bits.antt =====
-- The bit operations that the C code uses, as arithmetic on the native numbers.
use Prim.Native.Nat.{
  ℕ, zero, suc, ◌+◌, ◌*◌, ◌/◌, ◌%◌, ◌^◌, ◌≤◌, ◌<◌, min, max, bit_and, bit_or, bitwise, digits,
  bit_and-bitwise, bit_or-bitwise,
}
use mathlib.Core.Path.{◌≡◌, refl, ap}
use native.Mathlib.Nat.{pow-suc}
use native.Mathlib.Omega.{arith}

-- `digits` spends one unit of fuel on each digit of its first number, and any fuel from that
-- number on gives the same digits.
module _ (rest : ℕ → ℕ) (op : ℕ → ℕ → ℕ) where
  digits_enough : (m n a b : ℕ) → a ≤ m → a ≤ n → digits rest op m a b ≡ digits rest op n a b
  digits_enough zero zero a b p q = refl
  digits_enough zero (suc n) zero b p q = refl
  digits_enough zero (suc n) (suc a) b p q = absurd (omega arith)
  digits_enough (suc m) zero zero b p q = refl
  digits_enough (suc m) zero (suc a) b p q = absurd (omega arith)
  digits_enough (suc m) (suc n) zero b p q = refl
  digits_enough (suc m) (suc n) (suc a) b p q =
      rw (digits_enough m n (suc a / 2) (b / 2) (omega arith) (omega arith))

  bitwise_halves :
      (a b : ℕ)
      → bitwise rest op (suc a) b ≡ bitwise rest op (suc a / 2) (b / 2) * 2 + op (suc a % 2) (b % 2)
  bitwise_halves a b =
      omega (arith, digits_enough a (suc a / 2) (suc a / 2) (b / 2) (omega arith) (omega arith))

-- One binary digit of `|` and of `&`.
pub or_halves : (a b : ℕ) → bit_or a b ≡ bit_or (a / 2) (b / 2) * 2 + max (a % 2) (b % 2)
or_halves zero b = simp bit_or-bitwise (omega arith)
or_halves (suc a) b = simp bit_or-bitwise (bitwise_halves (λ y. y) max a b)

pub and_halves : (a b : ℕ) → bit_and a b ≡ bit_and (a / 2) (b / 2) * 2 + min (a % 2) (b % 2)
and_halves zero b = simp bit_and-bitwise (omega arith)
and_halves (suc a) b = simp bit_and-bitwise (bitwise_halves (λ y. zero) min a b)

zero-or : (b : ℕ) → bit_or 0 b ≡ b
zero-or b = bit_or-bitwise 0 b

double_shift : (x k : ℕ) → x * 2 ^ suc k ≡ x * 2 ^ k * 2
double_shift x k = omega (arith, ap (λ (t : ℕ). x * t) (pow-suc 2 k))

-- `r | (x << k)` is a sum where `r` has no bit from `k` on.
pub or_above : (k r x : ℕ) → r < 2 ^ k → bit_or r (x * 2 ^ k) ≡ r + x * 2 ^ k
or_above zero zero x fits = omega (arith, zero-or (x * 2 ^ 0))
or_above zero (suc r) x fits = absurd (omega arith)
or_above (suc k) r x fits = ground (
  arith,
  double_shift x k,
  pow-suc 2 k,
  or_halves r (x * 2 ^ suc k),
  or_above k (r / 2) x (omega (arith, pow-suc 2 k)),
)

and_none_bound : (n a : ℕ) → a ≤ n → bit_and a 0 ≡ 0
and_none_bound n zero h = refl
and_none_bound zero (suc a) h = absurd (omega arith)
and_none_bound (suc n) (suc a) h =
    omega (arith, and_halves (suc a) 0, and_none_bound n (suc a / 2) (omega arith))

-- `&` with the masks of the wire format.
pub and_one : (a : ℕ) → bit_and a 0x01 ≡ a % 2
and_one a = omega (arith, and_halves a 1, and_none_bound (a / 2) (a / 2) (omega arith))

pub and_three : (a : ℕ) → bit_and a 0x03 ≡ a % 4
and_three a = omega (arith, and_halves a 3, and_one (a / 2))

pub and_seven : (a : ℕ) → bit_and a 0x07 ≡ a % 8
and_seven a = omega (arith, and_halves a 7, and_three (a / 2))

pub and_fifteen : (a : ℕ) → bit_and a 0x0f ≡ a % 16
and_fifteen a = omega (arith, and_halves a 15, and_seven (a / 2))

pub and_low_six : (a : ℕ) → bit_and a 0x3f ≡ a % 64
and_low_six a = omega (arith, and_halves a 63, and_halves (a / 2) 31, and_fifteen (a / 2 / 2))

pub and_low_seven : (a : ℕ) → bit_and a 0x7f ≡ a % 128
and_low_seven a = omega (arith, and_halves a 127, and_low_six (a / 2))

pub and_low_byte : (a : ℕ) → bit_and a 0xff ≡ a % 256
and_low_byte a = omega (arith, and_halves a 255, and_low_seven (a / 2))

and_sixteen : (a : ℕ) → bit_and a 16 ≡ a / 16 % 2 * 16
and_sixteen a = omega (
  arith,
  and_halves a 16,
  and_halves (a / 2) 8,
  and_halves (a / 2 / 2) 4,
  and_halves (a / 2 / 2 / 2) 2,
  and_one (a / 2 / 2 / 2 / 2),
)

-- The continuation bit of a byte.
pub and_top_bit : (a : ℕ) → bit_and a 0x80 ≡ a / 128 % 2 * 128
and_top_bit a = omega (
  arith,
  and_halves a 128,
  and_halves (a / 2) 64,
  and_halves (a / 2 / 2) 32,
  and_sixteen (a / 2 / 2 / 2),
)

-- Setting the continuation bit on a group of seven bits.
pub or_top_bit : (a : ℕ) → a < 128 → bit_or a 0x80 ≡ a + 128
or_top_bit a h = or_above 7 a 1 h

-- The bits of a fifth byte that a 32-bit varint cannot hold.
pub and_high_three : (a : ℕ) → bit_and a 0x70 ≡ a / 16 % 8 * 16
and_high_three a = omega (
  arith,
  and_halves a 112,
  and_halves (a / 2) 56,
  and_halves (a / 2 / 2) 28,
  and_halves (a / 2 / 2 / 2) 14,
  and_seven (a / 2 / 2 / 2 / 2),
)

or_none_bound : (n a : ℕ) → a ≤ n → bit_or a 0 ≡ a
or_none_bound n zero h = refl
or_none_bound zero (suc a) h = absurd (omega arith)
or_none_bound (suc n) (suc a) h =
    omega (arith, or_halves (suc a) 0, or_none_bound n (suc a / 2) (omega arith))

or_none : (a r : ℕ) → r ≡ 0 → bit_or a r ≡ a
or_none a r h = rw h (or_none_bound a a (omega arith))

-- `(x << k) | r` is a sum where `r` fits below.
pub or_below : (k x r : ℕ) → r < 2 ^ k → bit_or (x * 2 ^ k) r ≡ x * 2 ^ k + r
or_below zero x r fits = omega (arith, or_none (x * 2 ^ 0) r (omega arith))
or_below (suc k) x r fits = ground (
  arith,
  double_shift x k,
  pow-suc 2 k,
  or_halves (x * 2 ^ suc k) r,
  or_below k x (r / 2) (omega (arith, pow-suc 2 k)),
)

pub or_wire_type : (x r : ℕ) → r < 8 → bit_or (x * 8) r ≡ x * 8 + r
or_wire_type x r h = or_below 3 x r h
