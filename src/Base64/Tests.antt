-- ===== src/Base64/Tests.antt =====
-- Runs of the model of fbase64.c, and the theorems at concrete inputs.
use flchat.Base.{ℕ, ◌≡◌, refl, arith, some, none, List, [], ◌∷◌, ◌++◌}
use flchat.Base64.{
  f_b64_ntop, f_b64_pton, ntop_loop, ntop_tail, base64, pton_loop, pton_step, index_from,
  all_spaces, drop_spaces,
}
use flchat.Base64.Encode.{IsBytes}
use flchat.Base64.RoundTrip.{f_b64_pton-f_b64_ntop}

abbrev man : List ℕ
man = b'M' ∷ b'a' ∷ b'n' ∷ b'y' ∷ []

abbrev man-IsBytes : IsBytes man
man-IsBytes = (omega arith, (omega arith, (omega arith, (omega arith, tt))))

ntop_man : f_b64_ntop man 9 ≡ some (b'T' ∷ b'W' ∷ b'F' ∷ b'u' ∷ b'e' ∷ b'Q' ∷ b'=' ∷ b'=' ∷ [])
unfolding f_b64_ntop ntop_loop ntop_tail base64
ntop_man = refl

ntop_short : f_b64_ntop man 8 ≡ none
unfolding f_b64_ntop ntop_loop ntop_tail base64
ntop_short = refl

pton_man :
    f_b64_pton
      (b'T' ∷ b'W' ∷ b'F' ∷ b'u' ∷ b' ' ∷ b'e' ∷ b'Q' ∷ b'=' ∷ b'=' ∷ [])
      (some (7 ∷ 7 ∷ 7 ∷ 7 ∷ 7 ∷ []))
      5
    ≡ some (4, some ((b'M' ∷ b'a' ∷ b'n' ∷ b'y' ∷ []) ++ 0 ∷ []))
unfolding f_b64_pton pton_loop pton_step index_from all_spaces drop_spaces base64
pton_man = refl

f_b64_pton-f_b64_ntop_example :
    (rest : List ℕ) × (f_b64_pton
        (b'T' ∷ b'W' ∷ b'F' ∷ b'u' ∷ b'e' ∷ b'Q' ∷ b'=' ∷ b'=' ∷ [])
        (some (7 ∷ 7 ∷ 7 ∷ 7 ∷ 7 ∷ []))
        5
      ≡ some (4, some (man ++ rest)))
f_b64_pton-f_b64_ntop_example =
    f_b64_pton-f_b64_ntop man (7 ∷ 7 ∷ 7 ∷ 7 ∷ 7 ∷ [])
      (b'T' ∷ b'W' ∷ b'F' ∷ b'u' ∷ b'e' ∷ b'Q' ∷ b'=' ∷ b'=' ∷ []) 9 5 man-IsBytes ntop_man
      (omega arith) (omega arith) (omega arith)
