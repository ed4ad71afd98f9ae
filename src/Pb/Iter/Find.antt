-- ===== src/Pb/Iter/Find.antt =====
-- The search of `pb_field_iter_find` in pb_common.c, around the fields from where the iterator is.
use flchat.Base.{
  ℕ, zero, suc, ◌+◌, ◌-◌, ◌≤◌, ◌<◌, ◌≡◌, ◌≢◌, ◌⊎◌, inl, inr, refl, ◌∙◌, arith, true, false, Bool,
  Bool-cases, Option, none, some, List, [], ◌∷◌, All, length, ltb, ◌==◌, if◌then◌else◌,
}
use flchat.Pb.{Field}
use flchat.Pb.Iter.{
  FieldIter, field_at, is_wanted, pb_field_iter_begin, pb_field_iter_next, find_loop,
  pb_field_iter_find,
}

-- Only the terminator has the tag 0.
abbrev pub IsFields : List Field → Type 0
IsFields = All (λ (f : Field). f.tag ≢ 0)

field_at_tag :
    (fields : List Field) (i : ℕ)
    → IsFields fields
    → i < length fields
    → (field_at fields i).tag ≢ 0
field_at_tag [] i h lt = absurd (omega arith)
field_at_tag (f ∷ fields) zero h lt = h.0
field_at_tag (f ∷ fields) (suc i) h lt = field_at_tag fields i h.1 (omega arith)

field_at_end : (fields : List Field) → (field_at fields (length fields)).tag ≡ 0
field_at_end [] = refl
field_at_end (f ∷ fields) = field_at_end fields

-- The position goes up by one, and from the last back to the first.
pub next_pos :
    (iter : FieldIter)
    → IsFields iter.start
    → iter.pos < length iter.start
    → ((pb_field_iter_next iter).0.pos
        ≡ (if ltb (iter.pos + 1) (length iter.start) then iter.pos + 1 else 0))
      × ((pb_field_iter_next iter).0.start ≡ iter.start)
unfolding pb_field_iter_next pb_field_iter_begin
next_pos iter h lt = elim (Bool-cases (ltb (iter.pos + 1) (length iter.start))) [
  | inl more ↦
      ground
        (arith, field_at_tag iter.start iter.pos h lt, field_at_tag iter.start (iter.pos + 1) h)
  | inr last ↦
      let same : iter.pos + 1 ≡ length iter.start = ground arith in
      let end : (field_at iter.start (iter.pos + 1)).tag ≡ 0 = rw same (field_at_end iter.start) in
      ground (arith, field_at_tag iter.start iter.pos h lt)
]

-- The step says whether there is a next field, and it stays at the same structure.
pub next_more :
    (iter : FieldIter)
    → IsFields iter.start
    → iter.pos < length iter.start
    → ((pb_field_iter_next iter).1 ≡ ltb (iter.pos + 1) (length iter.start))
      × ((pb_field_iter_next iter).0.dest_struct ≡ iter.dest_struct)
unfolding pb_field_iter_next pb_field_iter_begin
next_more iter h lt = elim (Bool-cases (ltb (iter.pos + 1) (length iter.start))) [
  | inl more ↦
      ground
        (arith, field_at_tag iter.start iter.pos h lt, field_at_tag iter.start (iter.pos + 1) h)
  | inr last ↦
      let same : iter.pos + 1 ≡ length iter.start = ground arith in
      let end : (field_at iter.start (iter.pos + 1)).tag ≡ 0 = rw same (field_at_end iter.start) in
      ground (arith, field_at_tag iter.start iter.pos h lt)
]

-- The positions that the loop has been at, on its way from `start` to `pos`.
abbrev Passed : ℕ → ℕ → ℕ → Type 0
Passed start pos i =
    ((start ≤ pos) × (start ≤ i) × (i < pos)) ⊎ ((pos < start) × ((start ≤ i) ⊎ (i < pos)))

-- The rounds that are left, with the one at `pos`.
abbrev pub to_go : ℕ → ℕ → ℕ → ℕ
to_go n start pos = if ltb pos start then start - pos else n - pos + start

-- What the answer of `pb_field_iter_find` says: the iterator is at a field with the tag, or no field
-- has it.
abbrev pub Searched : List Field → ℕ → Option (FieldIter × Bool) → Type 0
Searched fields tag none = ⊥
Searched fields tag (some (iter, true)) =
    (iter.start ≡ fields)
    × (iter.pos < length fields)
    × (is_wanted tag (field_at fields iter.pos) ≡ true)
Searched fields tag (some (iter, false)) =
    (i : ℕ) → i < length fields → is_wanted tag (field_at fields i) ≡ false

-- A step passes only the position it leaves.
Passed-step :
    (n start pos next i : ℕ)
    → next ≡ (if ltb (pos + 1) n then pos + 1 else 0)
    → start < n
    → pos < n
    → i < n
    → (next ≡ start) ⊎ Passed start next i
    → (i ≡ pos) ⊎ Passed start pos i
Passed-step n start pos next i step hs hp hi now = ground arith

pub to_go_step :
    (n start pos next : ℕ)
    → next ≡ (if ltb (pos + 1) n then pos + 1 else 0)
    → start < n
    → pos < n
    → next ≢ start
    → to_go n start pos ≡ suc (to_go n start next)
to_go_step n start pos next step hs hp ne = ground arith

Passed-on :
    (tag : ℕ) (fields : List Field) (iter : FieldIter) {start : ℕ}
    → iter.start ≡ fields
    → is_wanted tag (field_at iter.start iter.pos) ≡ false
    → ((i : ℕ)
        → i < length fields
        → Passed start iter.pos i
        → is_wanted tag (field_at fields i) ≡ false)
    → (i : ℕ) → i < length fields
    → (i ≡ iter.pos) ⊎ Passed start iter.pos i
    → is_wanted tag (field_at fields i) ≡ false
Passed-on tag fields iter same other passed i hi (inl here) = rw (here, ← same) other
Passed-on tag fields iter same other passed i hi (inr before) = passed i hi before

find_loop-Searched :
    (fuel start tag : ℕ) (fields : List Field) (iter : FieldIter)
    → IsFields fields
    → iter.start ≡ fields
    → start < length fields
    → iter.pos < length fields
    → to_go (length fields) start iter.pos ≤ fuel
    → ((i : ℕ)
        → i < length fields
        → Passed start iter.pos i
        → is_wanted tag (field_at fields i) ≡ false)
    → Searched fields tag (find_loop fuel start tag iter)
unfolding find_loop
find_loop-Searched zero start tag fields iter h same hs hp enough passed = absurd (ground arith)
find_loop-Searched (suc fuel) start tag fields iter h same hs hp enough passed =
    let moved = next_pos iter (rw same h) (rw same hp) in
    let step : (pb_field_iter_next iter).0.pos
        ≡ (if ltb (iter.pos + 1) (length fields) then iter.pos + 1 else 0) =
      rw (← same) moved.0 in
    elim (Bool-cases (is_wanted tag (field_at iter.start iter.pos))) [
      | inl found ↦ rw (found, Searched) (same, hp, rw (← same) found)
      | inr other ↦ elim (Bool-cases ((pb_field_iter_next iter).0.pos == start)) [
        | inl round ↦
            rw (other, round, Searched)
              (λ i hi.
                Passed-on tag fields iter same other passed i hi (
                  Passed-step (length fields) start iter.pos _ i step hs hp hi
                    (inl (ground arith))))
        | inr on ↦
            rw (other, on, Searched)
              (find_loop-Searched fuel start tag fields _ h (moved.1 ∙ same) hs (ground arith)
                (ground (arith, to_go_step (length fields) start iter.pos _ step hs hp))
                (λ i hi now.
                  Passed-on tag fields iter same other passed i hi
                    (Passed-step (length fields) start iter.pos _ i step hs hp hi (inr now))))
      ]
    ]

-- In a message whose descriptors have tags other than 0, with the iterator at any of its fields,
-- `pb_field_iter_find` returns: true with the iterator at a field that has the tag and is no
-- extension, or false, and then no field of the message is one.
pub pb_field_iter_find-Searched :
    (tag : ℕ) (iter : FieldIter)
    → IsFields iter.start
    → iter.pos < length iter.start
    → Searched iter.start tag (pb_field_iter_find iter tag)
unfolding pb_field_iter_find
pb_field_iter_find-Searched tag iter h lt =
    find_loop-Searched (suc (length iter.start)) iter.pos tag iter.start iter h refl lt lt
      (ground arith) (λ i hi before. absurd (omega arith))
