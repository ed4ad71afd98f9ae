-- ===== src/Pb/DecodeMessage/Search.antt =====
-- Searches of pb_common.c and pb_decode.c that go around all fields of a message and find nothing.
use flchat.Base.{
  ℕ, zero, suc, ◌+◌, ◌≤◌, ◌<◌, ◌≡◌, refl, ◌∙◌, arith, Bool, true, false, Option, none, some, List,
  length, ltb, ◌==◌, ◌⊎◌, inl, inr, Bool-cases, if◌then◌else◌,
}
use flchat.Pb.{Field, pb_ltype}
use flchat.Pb.DecodeMessage.Required.{IsInside, next-IsInside}
use flchat.Pb.DecodeMessage.Services.{find_extension_loop, find_extension_field}
use flchat.Pb.Iter.{
  FieldIter, field_at, is_wanted, pb_field_iter_next, find_loop, pb_field_iter_find,
}
use flchat.Pb.Iter.Find.{next_pos, to_go, to_go_step}
use flchat.Pb.LType

-- Induction on the way around the fields, from `iter` until the position is `start` again.
around :
    (fields : List Field) (start : ℕ) (P : ℕ → FieldIter → Type 0)
    → ((fuel : ℕ) (iter : FieldIter)
        → IsInside iter
        → iter.start ≡ fields
        → ((pb_field_iter_next iter).0.pos ≡ start) ⊎ P fuel (pb_field_iter_next iter).0
        → P (suc fuel) iter)
    → start < length fields
    → (fuel : ℕ) (iter : FieldIter) → IsInside iter
    → iter.start ≡ fields
    → to_go (length fields) start iter.pos ≤ fuel
    → P fuel iter
around fields start P step hs zero iter h same enough =
    let lt : iter.pos < length fields = rw (← same) h.inside in absurd (ground arith)
around fields start P step hs (suc fuel) iter h same enough =
    let lt : iter.pos < length fields = rw (← same) h.inside in
    let moved = next_pos iter h.valid h.inside in
    let next : (pb_field_iter_next iter).0.pos
        ≡ (if ltb (iter.pos + 1) (length fields) then iter.pos + 1 else 0) =
      rw (← same) moved.0 in
    elim (Bool-cases ((pb_field_iter_next iter).0.pos == start)) [
      | inl round ↦ step fuel iter h same (inl (ground arith))
      | inr on ↦ step fuel iter h same (
          inr (
            around fields start P step hs fuel (pb_field_iter_next iter).0 (next-IsInside iter h)
              (moved.1 ∙ same)
              (ground (arith, to_go_step (length fields) start iter.pos _ next hs lt))))
    ]

-- Nothing is found, and the iterator is at a field of the message.
abbrev pub Missed : List Field → Option (FieldIter × Bool) → Type 0
Missed fields none = ⊥
Missed fields (some (iter, true)) = ⊥
Missed fields (some (iter, false)) = IsInside iter × (iter.start ≡ fields)

-- The end of a round of both loops, with what the rest of the loop gives.
round_Missed :
    (fields : List Field) (start : ℕ) (iter : FieldIter) (rest : Option (FieldIter × Bool))
    → IsInside iter
    → iter.start ≡ fields
    → ((pb_field_iter_next iter).0.pos ≡ start) ⊎ Missed fields rest
    → Missed fields (elim ((pb_field_iter_next iter).0.pos == start) [
      | true ↦ some ((pb_field_iter_next iter).0, false)
      | false ↦ rest
    ])
round_Missed fields start iter rest h same next =
    elim (Bool-cases ((pb_field_iter_next iter).0.pos == start)) [
      | inl round ↦
          rw (round, Missed) (next-IsInside iter h, (next_pos iter h.valid h.inside).1 ∙ same)
      | inr on ↦ elim next [ inl round ↦ absurd (ground arith) | inr missed ↦ rw on missed ]
    ]

pub pb_field_iter_find-Missed :
    (tag : ℕ) (iter : FieldIter)
    → IsInside iter
    → ((i : ℕ) → i < length iter.start → is_wanted tag (field_at iter.start i) ≡ false)
    → Missed iter.start (pb_field_iter_find iter tag)
unfolding pb_field_iter_find find_loop
pb_field_iter_find-Missed tag iter h unwanted =
    let fields = iter.start in
    around fields iter.pos (λ fuel it. Missed fields (find_loop fuel iter.pos tag it))
      (λ fuel it h' same next.
        let other : is_wanted tag (field_at it.start it.pos) ≡ false =
          rw same (unwanted it.pos (rw (← same) h'.inside)) in
        rw (other, Missed) (round_Missed fields iter.pos it _ h' same next))
      h.inside (suc (length fields)) iter h refl (ground arith)

pub find_extension_field-Missed :
    (iter : FieldIter)
    → IsInside iter
    → ((i : ℕ)
        → i < length iter.start
        → (pb_ltype (field_at iter.start i).type == LType.extension) ≡ false)
    → Missed iter.start (find_extension_field iter)
unfolding find_extension_field find_extension_loop
find_extension_field-Missed iter h plain =
    let fields = iter.start in
    around fields iter.pos (λ fuel it. Missed fields (find_extension_loop fuel iter.pos it))
      (λ fuel it h' same next.
        let other : (pb_ltype (field_at it.start it.pos).type == LType.extension) ≡ false =
          rw same (plain it.pos (rw (← same) h'.inside)) in
        rw (other, Missed) (round_Missed fields iter.pos it _ h' same next))
      h.inside (suc (length fields)) iter h refl (ground arith)
