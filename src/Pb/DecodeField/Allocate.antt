-- ===== src/Pb/DecodeField/Allocate.antt =====
-- The size that `allocate_field` asks for.
use flchat.Base.{
  ℕ, zero, ◌-◌, ◌*◌, ◌/◌, ◌^◌, ◌<◌, ◌≡◌, refl, arith, ltb, leb, ◌==◌, ◌&&◌, ◌||◌, if◌then◌else◌,
  Bool-cases, inl, inr,
}
use flchat.Base.Memory.{Memory, load_word, store_word, u64}
use flchat.Pb.{ok, invalid_size, size_too_large, realloc_failed}
use flchat.Pb.DecodeField.{Work, reject, allocate_field}
use native.Mathlib.Nat.{div-lt_iff_lt-mul}

division_test : (a d : ℕ) → zero < a → ltb ((2 ^ 64 - 1) / a) d ≡ leb (2 ^ 64) (d * a)
division_test a d pos = ground (arith, div-lt_iff_lt-mul {k = a} {x = 2 ^ 64 - 1} {y = d} pos)

small_product : (a d : ℕ) → a < 2 ^ 32 → d < 2 ^ 32 → d * a < 2 ^ 64
small_product a d ha hd = grind arith

-- The test before the division changes nothing.
limit_test :
    (a d : ℕ)
    → zero < a
    → ((leb (2 ^ 32) d || leb (2 ^ 32) a) && ltb ((2 ^ 64 - 1) / a) d) ≡ leb (2 ^ 64) (d * a)
limit_test a d pos = ground (arith, division_test a d pos, small_product a d)

-- `allocate_field` rejects a size of 0, rejects every product of 2^64 or more, and otherwise asks
-- `pb_realloc` for the exact product: where the answer is NULL it fails and leaves the pointer, and
-- otherwise it stores the new pointer.
pub allocate_field-exact :
    {S : Type 0} (pb_realloc : Memory → ℕ → ℕ → Memory × ℕ) (p_data data_size array_size : ℕ)
    (w : Work S)
    → allocate_field pb_realloc p_data data_size array_size w ≡ (
        let answer = pb_realloc w.memory (load_word w.memory p_data 8) (data_size * array_size) in
        if data_size == 0 || array_size == 0
        then reject invalid_size w
        else if leb (2 ^ 64) (data_size * array_size)
        then reject size_too_large w
        else if answer.1 == 0
        then reject realloc_failed (record w { memory = answer.0 })
        else ok tt (record w { memory = store_word answer.0 p_data 8 answer.1 }))
unfolding allocate_field
allocate_field-exact pb_realloc p_data data_size array_size w =
    elim (Bool-cases (data_size == 0 || array_size == 0)) [
      | inl empty ↦ rw empty refl
      | inr both ↦
          let test = limit_test array_size data_size (ground arith) in
          elim (Bool-cases (leb (2 ^ 64) (data_size * array_size))) [
            | inl big ↦ rw (both, test, big) refl
            | inr fits ↦
                let same : u64 (array_size * data_size) ≡ data_size * array_size = ground arith in
                rw (both, test, fits, same) refl
          ]
    ]
