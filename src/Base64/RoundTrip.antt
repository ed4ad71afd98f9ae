-- ===== src/Base64/RoundTrip.antt =====
-- `f_b64_pton` on the text that `f_b64_ntop` makes, both of fbase64.c.
use flchat.Base.{
  ℕ, ◌+◌, ◌*◌, ◌/◌, ◌%◌, ◌^◌, ◌≤◌, ◌<◌, ◌≡◌, ap, ◌∙◌, sym, arith, some, List, [], ◌∷◌, ◌++◌,
  append_assoc, append-nil, length, length-append, if◌then◌else◌, ◌==◌,
}
use flchat.Base64.{
  base64, pad64, State, first, third, fourth, Progress, pton_loop, drop_spaces, all_spaces,
  f_b64_ntop, f_b64_pton, pton_finish,
}
use flchat.Base64.Encode.{IsBytes, encode64, f_b64_ntop-encode64}
use flchat.Base64.Decode.{at, loop_two, loop_third, loop_fourth, get_or-append_length}

-- A place for each byte, and one more where the text ends in padding.
abbrev pub spare : List ℕ → ℕ
spare src = if length src % 3 == 0 then 0 else 1

loop_group :
    (targsize a b c f g h : ℕ) (done free src : List ℕ)
    → a < 256
    → b < 256
    → c < 256
    → length done + 3 ≤ targsize
    → length done + 3 < 2 ^ 32
    → pton_loop targsize
        (base64 (a / 4)
          ∷ base64 (a % 4 * 16 + b / 16)
          ∷ base64 (b % 16 * 4 + c / 64)
          ∷ base64 (c % 64)
          ∷ src)
        (at done (f ∷ g ∷ h ∷ free) first)
      ≡ pton_loop targsize src (at (done ++ a ∷ b ∷ c ∷ []) free first)
loop_group targsize a b c f g h done free src ha hb hc room low =
    loop_two targsize a b f g done (h ∷ free) _ ha hb (omega arith) (omega arith)
    ∙ loop_third targsize b c h (done ++ a ∷ []) free _ hb hc
        (omega (arith, length-append done (a ∷ []))) (omega (arith, length-append done (a ∷ [])))
    ∙ loop_fourth targsize c ((done ++ a ∷ []) ++ b ∷ []) free src hc
        (omega (arith, length-append (done ++ a ∷ []) (b ∷ []), length-append done (a ∷ [])))
        (omega (arith, length-append (done ++ a ∷ []) (b ∷ []), length-append done (a ∷ [])))
    ∙ ap (λ (l : List ℕ). pton_loop targsize src (at l free first))
        (append_assoc (done ++ a ∷ []) (b ∷ []) (c ∷ []) ∙ append_assoc done (a ∷ []) (b ∷ c ∷ []))

digits_one :
    (a : ℕ)
    → a < 256
    → encode64 (a ∷ []) ≡ base64 (a / 4) ∷ base64 (a % 4 * 16 + 0 / 16) ∷ pad64 ∷ pad64 ∷ []
unfolding encode64
digits_one a ha = ground arith

digits_two :
    (a b : ℕ)
    → a < 256
    → b < 256
    → encode64 (a ∷ b ∷ [])
      ≡ base64 (a / 4) ∷ base64 (a % 4 * 16 + b / 16) ∷ base64 (b % 16 * 4 + 0 / 64) ∷ pad64 ∷ []
unfolding encode64
digits_two a b ha hb = ground arith

digits_three :
    (a b c : ℕ) (src : List ℕ)
    → a < 256
    → b < 256
    → c < 256
    → encode64 (a ∷ b ∷ c ∷ src)
      ≡ base64 (a / 4)
        ∷ base64 (a % 4 * 16 + b / 16)
        ∷ base64 (b % 16 * 4 + c / 64)
        ∷ base64 (c % 64)
        ∷ encode64 src
unfolding encode64
digits_three a b c src ha hb hc = ground arith

-- Behind the last characters: what the second switch makes of the padding.
end_one :
    (targsize : ℕ) (done free : List ℕ)
    → pton_finish (pton_loop targsize (pad64 ∷ pad64 ∷ []) (at done (0 / 16 * 16 ∷ free) third))
      ≡ some (at done (0 ∷ free) third)
unfolding pton_loop drop_spaces all_spaces
end_one targsize done free = ground (arith, get_or-append_length done free 0 0)

end_two :
    (targsize : ℕ) (done free : List ℕ)
    → pton_finish (pton_loop targsize (pad64 ∷ []) (at done (0 / 64 * 64 ∷ free) fourth))
      ≡ some (at done (0 ∷ free) fourth)
unfolding pton_loop drop_spaces all_spaces
end_two targsize done free = ground (arith, get_or-append_length done free 0 0)

-- The bytes stand in front of what is left of the array.
abbrev Restores : ℕ → List ℕ → List ℕ → List ℕ → Type 0
Restores targsize done free src =
    (free' : List ℕ) × (state : State) × (pton_finish
        (pton_loop targsize (encode64 src) (at done free first))
      ≡ some (at (done ++ src) free' state))

restores_one :
    (targsize a f g : ℕ) (done free : List ℕ)
    → a < 256
    → length done + 2 ≤ targsize
    → length done + 2 < 2 ^ 32
    → pton_finish (pton_loop targsize (encode64 (a ∷ [])) (at done (f ∷ g ∷ free) first))
      ≡ some (at (done ++ a ∷ []) (0 ∷ free) third)
restores_one targsize a f g done free ha room low =
    ap (λ (text : List ℕ). pton_finish (pton_loop targsize text (at done (f ∷ g ∷ free) first)))
      (digits_one a ha)
    ∙ ap pton_finish (
        loop_two targsize a 0 f g done free (pad64 ∷ pad64 ∷ []) ha (omega arith) (omega arith)
          (omega arith))
    ∙ end_one targsize (done ++ a ∷ []) free

restores_two :
    (targsize a b f g h : ℕ) (done free : List ℕ)
    → a < 256
    → b < 256
    → length done + 3 ≤ targsize
    → length done + 3 < 2 ^ 32
    → pton_finish (pton_loop targsize (encode64 (a ∷ b ∷ [])) (at done (f ∷ g ∷ h ∷ free) first))
      ≡ some (at (done ++ a ∷ b ∷ []) (0 ∷ free) fourth)
restores_two targsize a b f g h done free ha hb room low =
    ap (λ (text : List ℕ). pton_finish (pton_loop targsize text (at done (f ∷ g ∷ h ∷ free) first)))
      (digits_two a b ha hb)
    ∙ ap pton_finish (loop_two targsize a b f g done (h ∷ free) _ ha hb (omega arith) (omega arith))
    ∙ ap pton_finish (
        loop_third targsize b 0 h (done ++ a ∷ []) free (pad64 ∷ []) hb (omega arith)
          (omega (arith, length-append done (a ∷ []))) (omega (arith, length-append done (a ∷ []))))
    ∙ end_two targsize ((done ++ a ∷ []) ++ b ∷ []) free
    ∙ ap (λ (l : List ℕ). some (at l (0 ∷ free) fourth)) (append_assoc done (a ∷ []) (b ∷ []))

Restores-group :
    (targsize a b c f g h : ℕ) (done free src : List ℕ)
    → a < 256
    → b < 256
    → c < 256
    → length done + 3 ≤ targsize
    → length done + 3 < 2 ^ 32
    → Restores targsize (done ++ a ∷ b ∷ c ∷ []) free src
    → Restores targsize done (f ∷ g ∷ h ∷ free) (a ∷ b ∷ c ∷ src)
Restores-group targsize a b c f g h done free src ha hb hc room low (free', state, later) = (
  free',
  state,
  ap (λ (text : List ℕ). pton_finish (pton_loop targsize text (at done (f ∷ g ∷ h ∷ free) first)))
        (digits_three a b c src ha hb hc)
      ∙ ap pton_finish (loop_group targsize a b c f g h done free (encode64 src) ha hb hc room low)
      ∙ later
      ∙ ap (λ (l : List ℕ). some (at l free' state)) (append_assoc done (a ∷ b ∷ c ∷ []) src),
)

restores_nothing :
    (targsize : ℕ) (done free : List ℕ)
    → pton_finish (pton_loop targsize (encode64 []) (at done free first))
      ≡ some (at (done ++ []) free first)
unfolding encode64 pton_loop
restores_nothing targsize done free =
    ap (λ (l : List ℕ). some (at l free first)) (sym (append-nil done))

spare-group : (a b c : ℕ) (src : List ℕ) → spare (a ∷ b ∷ c ∷ src) ≡ spare src
spare-group a b c src = ground arith

loop-Restores :
    (src : List ℕ) (targsize : ℕ) (done free : List ℕ)
    → IsBytes src
    → length src + spare src ≤ length free
    → length done + length src + spare src ≤ targsize
    → length done + length src + spare src < 2 ^ 31
    → Restores targsize done free src
loop-Restores [] targsize done free h fits room low =
    (free, first, restores_nothing targsize done free)
loop-Restores (a ∷ []) targsize done (f ∷ g ∷ free) h fits room low =
    (0 ∷ free, third, restores_one targsize a f g done free h.0 (omega arith) (omega arith))
loop-Restores (a ∷ b ∷ []) targsize done (f ∷ g ∷ k ∷ free) h fits room low = (
  0 ∷ free,
  fourth,
  restores_two targsize a b f g k done free h.0 h.1.0 (omega arith) (omega arith),
)
loop-Restores (a ∷ b ∷ c ∷ src) targsize done (f ∷ g ∷ k ∷ free) h fits room low =
    Restores-group targsize a b c f g k done free src h.0 h.1.0 h.1.1.0 (omega arith) (omega arith)
      (loop-Restores src targsize (done ++ a ∷ b ∷ c ∷ []) free h.1.1.1
        (omega (arith, spare-group a b c src))
        (omega (arith, spare-group a b c src, length-append done (a ∷ b ∷ c ∷ [])))
        (omega (arith, spare-group a b c src, length-append done (a ∷ b ∷ c ∷ []))))
loop-Restores (a ∷ src) targsize done free h fits room low = absurd (omega arith)

fitting-text :
    (src text : List ℕ) (size : ℕ)
    → IsBytes src
    → f_b64_ntop src size ≡ some text
    → text ≡ encode64 src
fitting-text src text size h wrote = ground (arith, f_b64_ntop-encode64 src size h)

pton-finished :
    (text target : List ℕ) (targsize : ℕ) (p : Progress)
    → pton_finish (pton_loop targsize text (at [] target first)) ≡ some p
    → f_b64_pton text (some target) targsize ≡ some (p.tarindex, p.target)
unfolding f_b64_pton
pton-finished text target targsize p read = ground arith

-- Given the text that `f_b64_ntop` makes of bytes, with `targsize` and the array at least as long as
-- the bytes, and one longer when their number is no multiple of 3, all below 2^31, `f_b64_pton`
-- returns their number and puts them at the front of the array, with some `rest` behind them.
pub f_b64_pton-f_b64_ntop :
    (src target text : List ℕ) (size targsize : ℕ)
    → IsBytes src
    → f_b64_ntop src size ≡ some text
    → length src + spare src ≤ length target
    → length src + spare src ≤ targsize
    → length src + spare src < 2 ^ 31
    → (rest : List ℕ) × (f_b64_pton text (some target) targsize
        ≡ some (length src, some (src ++ rest)))
f_b64_pton-f_b64_ntop src target text size targsize h wrote fits room low =
    let (rest, state, read) =
      loop-Restores src targsize [] target h fits (omega arith) (omega arith) in
    (rest, rw (fitting-text src text size h wrote) (pton-finished _ target targsize _ read))
