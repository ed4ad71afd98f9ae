-- ===== src/Base64/Table.antt =====
-- The alphabet: each of its 64 characters is found at its place, and is neither space nor padding.
use flchat.Base.{ℕ, ◌<◌, ◌≡◌, refl, arith, Bool, true, false, ◌&&◌, not, none, some, ◌==◌}
use flchat.Base.{holds_below, holds_below→eq}
use flchat.Base64.{base64, index_from, index64, is_space, pad64}

-- The three facts of a character, as one test.
abbrev fits_table : ℕ → Bool
fits_table i =
    elim (index64 (base64 i)) [ none ↦ false | some j ↦ j == i ]
    && not (is_space (base64 i))
    && not (base64 i == pad64)

table_checked : holds_below 64 fits_table ≡ true
unfolding holds_below base64 index_from
table_checked = refl

fits_below : (i : ℕ) → i < 64 → fits_table i ≡ true
fits_below = holds_below→eq 64 fits_table table_checked

pub index64-base64 : (i : ℕ) → i < 64 → index64 (base64 i) ≡ some i
index64-base64 i h = ground (arith, fits_below i h)

pub base64_not_space : (i : ℕ) → i < 64 → is_space (base64 i) ≡ false
base64_not_space i h = ground (arith, fits_below i h)

pub base64_not_pad : (i : ℕ) → i < 64 → (base64 i == pad64) ≡ false
base64_not_pad i h = ground (arith, fits_below i h)
