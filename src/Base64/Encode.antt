-- ===== src/Base64/Encode.antt =====
-- The text that `f_b64_ntop` of fbase64.c writes, beside a plain description of base 64.
use flchat.Base.{
  ℕ, ◌+◌, ◌*◌, ◌/◌, ◌%◌, ◌≤◌, ◌<◌, ◌≡◌, refl, arith, none, some, List, [], ◌∷◌, ◌++◌, append_assoc,
  append-nil, length, length-append, All, leb, ltb, if◌then◌else◌, Bool-cases, inl, inr, ltb→lt,
  not_ltb→le, ap, ◌∙◌,
}
use flchat.Base.Bits.{and_three, and_fifteen, and_low_six}
use flchat.Base64.{base64, pad64, Written, ntop_tail, ntop_loop, f_b64_ntop}

abbrev pub IsBytes : List ℕ → Type 0
IsBytes = All (λ b. b < 256)

-- Three bytes are a number of 24 bits, written in base 64, highest digit first. Missing bytes count
-- as 0, and the digits that hold none of the given bits are padding.
unfoldable pub encode64 : List ℕ → List ℕ
encode64 [] = []
encode64 (a ∷ []) =
    let n = a * 65536 in base64 (n / 262144) ∷ base64 (n / 4096 % 64) ∷ pad64 ∷ pad64 ∷ []
encode64 (a ∷ b ∷ []) =
    let n = a * 65536 + b * 256 in
    base64 (n / 262144) ∷ base64 (n / 4096 % 64) ∷ base64 (n / 64 % 64) ∷ pad64 ∷ []
encode64 (a ∷ b ∷ c ∷ src) =
    let n = a * 65536 + b * 256 + c in
    base64 (n / 262144)
    ∷ base64 (n / 4096 % 64)
    ∷ base64 (n / 64 % 64)
    ∷ base64 (n % 64)
    ∷ encode64 src

-- The text, if it fits `targsize`.
abbrev fitting : ℕ → List ℕ → Written
fitting targsize text = if leb (length text) targsize then some text else none

tail-encode64_one :
    (targsize a : ℕ) (target : List ℕ)
    → a < 256
    → ntop_tail targsize target (a ∷ []) ≡ fitting targsize (target ++ encode64 (a ∷ []))
unfolding ntop_tail encode64
tail-encode64_one targsize a target ha =
    ground (arith, and_three a, length-append target (encode64 (a ∷ [])))

tail-encode64_two :
    (targsize a b : ℕ) (target : List ℕ)
    → a < 256
    → b < 256
    → ntop_tail targsize target (a ∷ b ∷ []) ≡ fitting targsize (target ++ encode64 (a ∷ b ∷ []))
unfolding ntop_tail encode64
tail-encode64_two targsize a b target ha hb =
    ground (arith, and_three a, and_fifteen b, length-append target (encode64 (a ∷ b ∷ [])))

-- The four digits of a whole group.
abbrev group64 : ℕ → ℕ → ℕ → List ℕ
group64 a b c =
    let n = a * 65536 + b * 256 + c in
    base64 (n / 262144) ∷ base64 (n / 4096 % 64) ∷ base64 (n / 64 % 64) ∷ base64 (n % 64) ∷ []

loop_group :
    (targsize a b c : ℕ) (target src : List ℕ)
    → a < 256
    → b < 256
    → c < 256
    → ntop_loop targsize target (a ∷ b ∷ c ∷ src) ≡ (
        if ltb targsize (length target + 4)
        then none
        else ntop_loop targsize (target ++ group64 a b c) src)
unfolding ntop_loop
loop_group targsize a b c target src ha hb hc =
    ground (arith, and_three a, and_fifteen b, and_low_six c)

encode64-group :
    (a b c : ℕ) (src : List ℕ) → encode64 (a ∷ b ∷ c ∷ src) ≡ group64 a b c ++ encode64 src
unfolding encode64
encode64-group a b c src = refl

too_long : (targsize : ℕ) (text : List ℕ) → targsize < length text → none ≡ fitting targsize text
too_long targsize text h = ground arith

group_too_long :
    (targsize a b c : ℕ) (target later : List ℕ)
    → targsize < length target + 4
    → targsize < length (target ++ group64 a b c ++ later)
group_too_long targsize a b c target later h =
    omega
      (arith, length-append (target ++ group64 a b c) later, length-append target (group64 a b c))

loop-encode64 :
    (src : List ℕ) (targsize : ℕ) (target : List ℕ)
    → IsBytes src
    → length target ≤ targsize
    → ntop_loop targsize target src ≡ fitting targsize (target ++ encode64 src)
loop-encode64 [] targsize target h fits =
    unfold ntop_loop ntop_tail encode64 in ground (arith, append-nil target)
loop-encode64 (a ∷ []) targsize target h fits =
    unfold ntop_loop in tail-encode64_one targsize a target h.0
loop-encode64 (a ∷ b ∷ []) targsize target h fits =
    unfold ntop_loop in tail-encode64_two targsize a b target h.0 h.1.0
loop-encode64 (a ∷ b ∷ c ∷ src) targsize target h fits =
    loop_group targsize a b c target src h.0 h.1.0 h.1.1.0
    ∙ elim (Bool-cases (ltb targsize (length target + 4))) [
      | inl full ↦
          rw (full, encode64-group)
            (rw (← append_assoc target (group64 a b c) (encode64 src)) (
              too_long targsize _
                (group_too_long targsize a b c target (encode64 src) (ltb→lt _ _ full))))
      | inr room ↦
          rw (room, encode64-group)
            (loop-encode64 src targsize (target ++ group64 a b c) h.1.1.1
                (omega (arith, length-append target (group64 a b c), not_ltb→le _ _ room))
              ∙ ap (fitting targsize) (append_assoc target (group64 a b c) (encode64 src)))
    ]

-- Of bytes, `f_b64_ntop` writes the base-64 text when the text is shorter than `targsize`, so that
-- its 0 fits too, and returns -1 otherwise.
pub f_b64_ntop-encode64 :
    (src : List ℕ) (targsize : ℕ)
    → IsBytes src
    → f_b64_ntop src targsize
      ≡ (if ltb (length (encode64 src)) targsize then some (encode64 src) else none)
unfolding f_b64_ntop
f_b64_ntop-encode64 src targsize h = ground (arith, loop-encode64 src targsize [] h)

pub length-encode64 : (src : List ℕ) → length (encode64 src) ≡ (length src + 2) / 3 * 4
unfolding encode64
length-encode64 [] = refl
length-encode64 (a ∷ []) = refl
length-encode64 (a ∷ b ∷ []) = refl
length-encode64 (a ∷ b ∷ c ∷ src) = omega (arith, length-encode64 src)
