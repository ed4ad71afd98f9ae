-- ===== src/Base64/Decode.antt =====
-- What `f_b64_pton` does with the characters of the alphabet, with `target` split into the bytes
-- that are written and the rest of the array.
use flchat.Base.{
  ℕ, suc, ◌+◌, ◌*◌, ◌/◌, ◌%◌, ◌^◌, ◌<◌, ◌≡◌, refl, ap, ◌∙◌, arith, some, List, [], ◌∷◌, ◌++◌,
  append_assoc, length, length-append, get_or, set,
}
use flchat.Base.Bits.{and_three, and_fifteen, or_below}
use flchat.Base64.{base64, State, first, second, third, fourth, Progress, pton_step, pton_loop}
use flchat.Base64.Table.{index64-base64, base64_not_space, base64_not_pad}

pub set-append_length :
    {A : Type 0} (xs ys : List A) (y v : A) → set (xs ++ y ∷ ys) (length xs) v ≡ xs ++ v ∷ ys
set-append_length [] ys y v = refl
set-append_length (x ∷ xs) ys y v = ap (◌∷◌ x) (set-append_length xs ys y v)

pub get_or-append_length :
    {A : Type 0} (xs ys : List A) (y d : A) → get_or (xs ++ y ∷ ys) (length xs) d ≡ y
get_or-append_length [] ys y d = refl
get_or-append_length (x ∷ xs) ys y d = get_or-append_length xs ys y d

set-append_next :
    {A : Type 0} (xs ys : List A) (y z v : A)
    → set (xs ++ y ∷ z ∷ ys) (suc (length xs)) v ≡ xs ++ y ∷ v ∷ ys
set-append_next [] ys y z v = refl
set-append_next (x ∷ xs) ys y z v = ap (◌∷◌ x) (set-append_next xs ys y z v)

-- `target` with the bytes `done` in front, in the middle of the work.
abbrev pub at : List ℕ → List ℕ → State → Progress
at done free state = record { target = some (done ++ free); tarindex = length done; state = state }

-- One character of the alphabet is one step.
pub loop-base64 :
    (targsize i : ℕ) (src : List ℕ) (p p' : Progress)
    → i < 64
    → pton_step targsize p.state i p ≡ some p'
    → pton_loop targsize (base64 i ∷ src) p ≡ pton_loop targsize src p'
unfolding pton_loop
loop-base64 targsize i src p p' h step =
    ground (arith, base64_not_space i h, base64_not_pad i h, index64-base64 i h)

-- The four characters of the group a b c. A place holds the high bits of its byte before the
-- character that completes it.
step_first :
    (targsize a f : ℕ) (done free : List ℕ)
    → a < 256
    → length done < targsize
    → pton_step targsize first (a / 4) (at done (f ∷ free) first)
      ≡ some (at done (a / 4 * 4 ∷ free) second)
unfolding pton_step
step_first targsize a f done free ha room =
    ground (arith, set-append_length done free f (a / 4 * 4))

step_second :
    (targsize a b f : ℕ) (done free : List ℕ)
    → a < 256
    → b < 256
    → suc (length done) < targsize
    → suc (length done) < 2 ^ 32
    → pton_step targsize second (a % 4 * 16 + b / 16) (at done (a / 4 * 4 ∷ f ∷ free) second)
      ≡ some (at (done ++ a ∷ []) (b / 16 * 16 ∷ free) third)
unfolding pton_step
step_second targsize a b f done free ha hb room low = ground (
  arith,
  get_or-append_length done (f ∷ free) (a / 4 * 4) 0,
  or_below 2 (a / 4) (a % 4),
  and_fifteen (a % 4 * 16 + b / 16),
  set-append_length done (f ∷ free) (a / 4 * 4) a,
  set-append_next done free a f (b / 16 * 16),
  append_assoc done (a ∷ []) (b / 16 * 16 ∷ free),
  length-append done (a ∷ []),
)

step_third :
    (targsize b c f : ℕ) (done free : List ℕ)
    → b < 256
    → c < 256
    → suc (length done) < targsize
    → suc (length done) < 2 ^ 32
    → pton_step targsize third (b % 16 * 4 + c / 64) (at done (b / 16 * 16 ∷ f ∷ free) third)
      ≡ some (at (done ++ b ∷ []) (c / 64 * 64 ∷ free) fourth)
unfolding pton_step
step_third targsize b c f done free hb hc room low = ground (
  arith,
  get_or-append_length done (f ∷ free) (b / 16 * 16) 0,
  or_below 4 (b / 16) (b % 16),
  and_three (b % 16 * 4 + c / 64),
  set-append_length done (f ∷ free) (b / 16 * 16) b,
  set-append_next done free b f (c / 64 * 64),
  append_assoc done (b ∷ []) (c / 64 * 64 ∷ free),
  length-append done (b ∷ []),
)

step_fourth :
    (targsize c : ℕ) (done free : List ℕ)
    → c < 256
    → length done < targsize
    → suc (length done) < 2 ^ 32
    → pton_step targsize fourth (c % 64) (at done (c / 64 * 64 ∷ free) fourth)
      ≡ some (at (done ++ c ∷ []) free first)
unfolding pton_step
step_fourth targsize c done free hc room low = ground (
  arith,
  get_or-append_length done free (c / 64 * 64) 0,
  or_below 6 (c / 64) (c % 64),
  set-append_length done free (c / 64 * 64) c,
  append_assoc done (c ∷ []) free,
  length-append done (c ∷ []),
)

-- Two characters bring a byte and the high bits of the next.
pub loop_two :
    (targsize a b f g : ℕ) (done free src : List ℕ)
    → a < 256
    → b < 256
    → suc (length done) < targsize
    → suc (length done) < 2 ^ 32
    → pton_loop targsize
        (base64 (a / 4) ∷ base64 (a % 4 * 16 + b / 16) ∷ src)
        (at done (f ∷ g ∷ free) first)
      ≡ pton_loop targsize src (at (done ++ a ∷ []) (b / 16 * 16 ∷ free) third)
loop_two targsize a b f g done free src ha hb room low =
    loop-base64 targsize (a / 4) _ _ _ (omega arith)
      (step_first targsize a f done (g ∷ free) ha (omega arith))
    ∙ loop-base64 targsize (a % 4 * 16 + b / 16) src _ _ (omega arith)
        (step_second targsize a b g done free ha hb room low)

pub loop_third :
    (targsize b c f : ℕ) (done free src : List ℕ)
    → b < 256
    → c < 256
    → suc (length done) < targsize
    → suc (length done) < 2 ^ 32
    → pton_loop targsize
        (base64 (b % 16 * 4 + c / 64) ∷ src)
        (at done (b / 16 * 16 ∷ f ∷ free) third)
      ≡ pton_loop targsize src (at (done ++ b ∷ []) (c / 64 * 64 ∷ free) fourth)
loop_third targsize b c f done free src hb hc room low =
    loop-base64 targsize (b % 16 * 4 + c / 64) src _ _ (omega arith)
      (step_third targsize b c f done free hb hc room low)

pub loop_fourth :
    (targsize c : ℕ) (done free src : List ℕ)
    → c < 256
    → length done < targsize
    → suc (length done) < 2 ^ 32
    → pton_loop targsize (base64 (c % 64) ∷ src) (at done (c / 64 * 64 ∷ free) fourth)
      ≡ pton_loop targsize src (at (done ++ c ∷ []) free first)
loop_fourth targsize c done free src hc room low =
    loop-base64 targsize (c % 64) src _ _ (omega arith)
      (step_fourth targsize c done free hc room low)
