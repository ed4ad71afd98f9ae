-- ===== src/Base64.antt =====
-- FLChat/Pods/FirebaseDatabase/Firebase/Database/third_party/SocketRocket/fbase64.c, with which
-- FSRWebSocket makes the key of its handshake: `f_b64_ntop` and `f_b64_pton`. A C string is a list
-- of character codes, without the 0 that ends it.
pub mod Table
pub mod Encode
pub mod Decode
pub mod RoundTrip
mod Tests
use flchat.Base.{
  ℕ, zero, suc, ◌+◌, ◌-◌, ◌*◌, ◌/◌, ◌%◌, bit_and, bit_or, Bool, true, false, ◌&&◌, ◌||◌, not,
  Option, none, some, List, [], ◌∷◌, ◌++◌, length, get_or, set, ltb, leb, ◌==◌, if◌then◌else◌,
}
use flchat.Base.Memory.{u8, u32}

-- `Base64[i]`, for i below 64.
unfoldable pub base64 : ℕ → ℕ
base64 i =
    if ltb i 26
    then b'A' + i
    else if ltb i 52
    then b'a' + (i - 26)
    else if ltb i 62
    then b'0' + (i - 52)
    else if i == 62
    then b'+'
    else b'/'

abbrev pub pad64 : ℕ
pad64 = b'='

-- The four numbers below 64 that three bytes make.
abbrev output0 : ℕ → ℕ
output0 a = a / 4

abbrev output1 : ℕ → ℕ → ℕ
output1 a b = u8 (bit_and a 0x03 * 16 + b / 16)

abbrev output2 : ℕ → ℕ → ℕ
output2 b c = u8 (bit_and b 0x0f * 4 + c / 64)

abbrev output3 : ℕ → ℕ
output3 c = bit_and c 0x3f

-- `target`, of which the first bytes have been written, with `datalength` their number. `none` is
-- the result -1.
abbrev pub Written : Type 0
Written = Option (List ℕ)

-- The four characters of a group, if they fit.
abbrev put_group : ℕ → List ℕ → List ℕ → Written
put_group targsize target group =
    if ltb targsize (length target + 4) then none else some (target ++ group)

-- What follows the loop: the padding, for the at most two bytes that are left.
unfoldable pub ntop_tail : ℕ → List ℕ → List ℕ → Written
ntop_tail targsize target [] = some target
ntop_tail targsize target (a ∷ []) =
    put_group targsize target (base64 (output0 a) ∷ base64 (output1 a 0) ∷ pad64 ∷ pad64 ∷ [])
ntop_tail targsize target (a ∷ b ∷ more) =
    put_group targsize target
      (base64 (output0 a) ∷ base64 (output1 a b) ∷ base64 (output2 b 0) ∷ pad64 ∷ [])

-- The loop over whole groups of three bytes.
unfoldable pub ntop_loop : ℕ → List ℕ → List ℕ → Written
ntop_loop targsize target (a ∷ b ∷ c ∷ src) =
    elim (put_group targsize target (
      base64 (output0 a) ∷ base64 (output1 a b) ∷ base64 (output2 b c) ∷ base64 (output3 c) ∷ [])) [
        | none ↦ none
        | some target' ↦ ntop_loop targsize target' src
      ]
ntop_loop targsize target src = ntop_tail targsize target src

-- The end of `f_b64_ntop`: the 0 behind the text has to fit too.
abbrev terminated : ℕ → Written → Written
terminated targsize none = none
terminated targsize (some target) = if leb targsize (length target) then none else some target

-- The text that is put into `target`; its length is the result.
unfoldable pub f_b64_ntop : List ℕ → ℕ → Written
f_b64_ntop src targsize = terminated targsize (ntop_loop targsize [] src)

-- `strchr(Base64, ch) - Base64`, for the `left` characters of the table from index `i` on.
unfoldable pub index_from : ℕ → ℕ → ℕ → Option ℕ
index_from zero i ch = none
index_from (suc left) i ch =
    let later = index_from left (i + 1) ch in if base64 i == ch then some i else later

abbrev pub index64 : ℕ → Option ℕ
index64 = index_from 64 0

-- `isspace` in the C locale.
abbrev pub is_space : ℕ → Bool
is_space ch = ch == 32 || (leb 9 ch && leb ch 13)

-- The `state` of `f_b64_pton`, 0 to 3: the place of the next character in its group.
pub data State : Type 0 where
  first second third fourth : State

-- The variables of the loop. `target` is `none` for NULL, and `tarindex` has 32 bits (u_int).
pub record Progress : Type 0 where
  pub target : Option (List ℕ)
  pub tarindex : ℕ
  pub state : State

-- `target[i] |= v`
abbrev or_into : List ℕ → ℕ → ℕ → List ℕ
or_into target i v = set target i (u8 (bit_or (get_or target i 0) v))

-- The case of the switch for a state, on the number of the character; `none` is the result -1.
unfoldable pub pton_step : ℕ → State → ℕ → Progress → Option Progress
pton_step targsize first v p = elim p.target [
  | none ↦ some (record p { state = second })
  | some target ↦
      if leb targsize p.tarindex
      then none
      else some (record p { target = some (set target p.tarindex (u8 (v * 4))); state = second })
]
pton_step targsize second v p = elim p.target [
  | none ↦ some (record p { tarindex = u32 (p.tarindex + 1); state = third })
  | some target ↦
      if leb targsize (u32 (p.tarindex + 1))
      then none
      else some (record p {
        target = some (
            set (or_into target p.tarindex (v / 16)) (u32 (p.tarindex + 1))
              (u8 (bit_and v 0x0f * 16)));
        tarindex = u32 (p.tarindex + 1);
        state = third;
      })
]
pton_step targsize third v p = elim p.target [
  | none ↦ some (record p { tarindex = u32 (p.tarindex + 1); state = fourth })
  | some target ↦
      if leb targsize (u32 (p.tarindex + 1))
      then none
      else some (record p {
        target = some (
            set (or_into target p.tarindex (v / 4)) (u32 (p.tarindex + 1))
              (u8 (bit_and v 0x03 * 64)));
        tarindex = u32 (p.tarindex + 1);
        state = fourth;
      })
]
pton_step targsize fourth v p = elim p.target [
  | none ↦ some (record p { tarindex = u32 (p.tarindex + 1); state = first })
  | some target ↦
      if leb targsize p.tarindex
      then none
      else some (record p {
        target = some (or_into target p.tarindex v);
        tarindex = u32 (p.tarindex + 1);
        state = first;
      })
]

-- The loop, to the end of the text or behind its first pad character; then what follows is given.
unfoldable pub pton_loop : ℕ → List ℕ → Progress → Option (Progress × Option (List ℕ))
pton_loop targsize [] p = some (p, none)
pton_loop targsize (ch ∷ src) p = elim (is_space ch) [
  | true ↦ pton_loop targsize src p
  | false ↦ elim (ch == pad64) [
    | true ↦ some (p, some src)
    | false ↦ elim (index64 ch) [
      | none ↦ none
      | some v ↦ elim (pton_step targsize p.state v p) [
        | none ↦ none
        | some p' ↦ pton_loop targsize src p'
      ]
    ]
  ]
]

unfoldable pub drop_spaces : List ℕ → List ℕ
drop_spaces [] = []
drop_spaces (ch ∷ src) = let later = drop_spaces src in if is_space ch then later else ch ∷ src

unfoldable pub all_spaces : List ℕ → Bool
all_spaces [] = true
all_spaces (ch ∷ src) = is_space ch && all_spaces src

-- The check of the bits that slopped past the last byte.
abbrev no_slop : Progress → Bool
no_slop p = elim p.target [ none ↦ true | some target ↦ get_or target p.tarindex 0 == 0 ]

-- Case 3 of the second switch: only whitespace may follow.
abbrev pton_end : Progress → List ℕ → Option Progress
pton_end p src = if all_spaces src && no_slop p then some p else none

-- Case 2: a second pad character has to come before that.
abbrev second_pad : Progress → List ℕ → Option Progress
second_pad p [] = none
second_pad p (ch ∷ src) = if ch == pad64 then pton_end p src else none

-- The second switch, behind a pad character.
abbrev pton_pad : State → Progress → List ℕ → Option Progress
pton_pad first p src = none
pton_pad second p src = none
pton_pad third p src = second_pad p (drop_spaces src)
pton_pad fourth p src = pton_end p src

-- Without a pad character there must be no partial byte.
abbrev pton_no_pad : State → Progress → Option Progress
pton_no_pad first p = some p
pton_no_pad _ p = none

abbrev pton_finish : Option (Progress × Option (List ℕ)) → Option Progress
pton_finish none = none
pton_finish (some (p, none)) = pton_no_pad p.state p
pton_finish (some (p, some src)) = pton_pad p.state p src

-- The result is `tarindex`, as the pattern of an `int`, or -1 for `none`; with it, what is in
-- `target`.
unfoldable pub f_b64_pton : List ℕ → Option (List ℕ) → ℕ → Option (ℕ × Option (List ℕ))
f_b64_pton src target targsize =
    elim (pton_finish
      (pton_loop targsize src (record { target = target; tarindex = 0; state = first }))) [
        | none ↦ none
        | some p ↦ some (p.tarindex, p.target)
      ]
