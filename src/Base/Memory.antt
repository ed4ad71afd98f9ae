-- ===== src/Base/Memory.antt =====
-- Byte-addressed memory, little-endian words in it, and the C conversions between widths.
use Prim.Native.Nat.{ℕ, zero, suc, ◌+◌, ◌-◌, ◌*◌, ◌/◌, ◌%◌, ◌^◌, ◌≤◌, ◌<◌}
use mathlib.Core.Path.{◌≡◌, refl, ap, ap₂}
use mathlib.Core.Logic.{◌⊎◌}
use mathlib.Core.List.{List, [], ◌∷◌}
use native.Mathlib.Nat.{pow-suc}
use native.Mathlib.Omega.{arith}
use flchat.Base.Tests.{ltb, ◌==◌, if◌then◌else◌}
use flchat.Base.Lists.{length}

abbrev pub u8 : ℕ → ℕ
u8 n = n % 2 ^ 8

abbrev pub u16 : ℕ → ℕ
u16 n = n % 2 ^ 16

abbrev pub u32 : ℕ → ℕ
u32 n = n % 2 ^ 32

abbrev pub u64 : ℕ → ℕ
u64 n = n % 2 ^ 64

-- `~x` on 64 bits.
abbrev pub not64 : ℕ → ℕ
not64 x = 2 ^ 64 - 1 - x

-- The 64-bit pattern of a signed value that is given by its pattern on `w` bits.
abbrev pub sign_extend : ℕ → ℕ → ℕ
sign_extend w x = if ltb x (2 ^ (w - 1)) then x else x + 2 ^ 64 - 2 ^ w

abbrev pub Memory : Type 0
Memory = ℕ → ℕ

abbrev pub poke : Memory → ℕ → ℕ → Memory
poke m a v = λ x. if x == a then v else m x

-- `dest[i] = buf[i]` for each byte of the list, from the lowest address on.
unfoldable pub store : Memory → ℕ → List ℕ → Memory
store m a [] = m
store m a (b ∷ bs) = store (poke m a b) (a + 1) bs

-- The `n` bytes from address `a` on.
unfoldable pub load : Memory → ℕ → ℕ → List ℕ
load m a zero = []
load m a (suc n) = m a ∷ load m (a + 1) n

pub store_outside :
    (bs : List ℕ) (m : Memory) (a x : ℕ) → (x < a) ⊎ (a + length bs ≤ x) → store m a bs x ≡ m x
unfolding store
store_outside [] m a x h = refl
store_outside (b ∷ bs) m a x h = ground (arith, store_outside bs (poke m a b) (a + 1) x)

pub load_ext :
    (n : ℕ) (m k : Memory) (a : ℕ)
    → ((x : ℕ) → a ≤ x → x < a + n → m x ≡ k x)
    → load m a n ≡ load k a n
unfolding load
load_ext zero m k a h = refl
load_ext (suc n) m k a h =
    ap₂ ◌∷◌ (h a (omega arith) (omega arith))
      (load_ext n m k (a + 1) (λ x p q. h x (omega arith) (omega arith)))

store_first : (bs : List ℕ) (m : Memory) (a b : ℕ) → store m a (b ∷ bs) a ≡ b
unfolding store
store_first bs m a b = ground (arith, store_outside bs (poke m a b) (a + 1) a)

-- What was stored is read back.
pub load-store : (bs : List ℕ) (m : Memory) (a : ℕ) → load (store m a bs) a (length bs) ≡ bs
unfolding load store
load-store [] m a = refl
load-store (b ∷ bs) m a = ap₂ ◌∷◌ (store_first bs m a b) (load-store bs (poke m a b) (a + 1))

-- A store that does not meet a range leaves what is loaded from it.
pub load-store_apart :
    (bs : List ℕ) (m : Memory) (a c n : ℕ)
    → (c + n ≤ a) ⊎ (a + length bs ≤ c)
    → load (store m a bs) c n ≡ load m c n
load-store_apart bs m a c n apart =
    load_ext n _ _ c (λ x p q. store_outside bs m a x (ground arith))

pub length-load : (n : ℕ) (m : Memory) (a : ℕ) → length (load m a n) ≡ n
unfolding load
length-load zero m a = refl
length-load (suc n) m a = ap suc (length-load n m (a + 1))

-- The value of a little-endian word, and the `n` bytes of a word.
unfoldable pub from_le : List ℕ → ℕ
from_le [] = 0
from_le (b ∷ bs) = b + 256 * from_le bs

unfoldable pub to_le : ℕ → ℕ → List ℕ
to_le zero v = []
to_le (suc n) v = v % 256 ∷ to_le n (v / 256)

pub length-to_le : (n v : ℕ) → length (to_le n v) ≡ n
unfolding to_le
length-to_le zero v = refl
length-to_le (suc n) v = ap suc (length-to_le n (v / 256))

pub from_le-to_le : (n v : ℕ) → v < 256 ^ n → from_le (to_le n v) ≡ v
unfolding from_le to_le
from_le-to_le zero v h = omega arith
from_le-to_le (suc n) v h = omega (arith, from_le-to_le n (v / 256) (omega (arith, pow-suc 256 n)))

-- `*(uintN_t *)a`, for N / 8 = n.
abbrev pub load_word : Memory → ℕ → ℕ → ℕ
load_word m a n = from_le (load m a n)

abbrev pub store_word : Memory → ℕ → ℕ → ℕ → Memory
store_word m a n v = store m a (to_le n v)
