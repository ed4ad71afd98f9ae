-- ===== src/Pb/DecodeMessage/Required.antt =====
-- The check of `pb_decode_noinit` in pb_decode.c that all required fields were there.
use flchat.Base.{
  ℕ, zero, suc, ◌+◌, ◌≤◌, ◌<◌, ◌≡◌, ◌≢◌, refl, subst, ◌∙◌, arith, true, not, Option, none, some,
  List, [], ◌∷◌, length, ltb, ◌==◌, if◌then◌else◌, Bool-cases, inl, inr, holds_below,
  holds_below→eq,
}
use flchat.Pb.{Field, ok, missing_required_field}
use flchat.Pb.DecodeField.{Work, Filler, reject}
use flchat.Pb.DecodeMessage.Services.{Services}
use flchat.Pb.DecodeMessage.Messages.{
  Locals, seek_end, req_field_count, all_seen, whole_words, check_required,
}
use flchat.Pb.Iter.{FieldIter, field_at, pb_field_iter_begin, pb_field_iter_next}
use flchat.Pb.Iter.Find.{IsFields, next_pos, next_more}
use flchat.Pb.Iter.Place.{
  IsPlaced, required_before, pb_field_iter_begin-IsPlaced, pb_field_iter_next-IsPlaced,
  required_before_next,
}

-- An iterator at a field of a message.
pub record IsInside (iter : FieldIter) : Type 0 where
  pub valid : IsFields iter.start
  pub inside : iter.pos < length iter.start
  pub placed : IsPlaced iter

pub begin-IsInside :
    (fields : List Field) (dest_struct : ℕ)
    → IsFields fields
    → 0 < length fields
    → IsInside (pb_field_iter_begin fields dest_struct).0
unfolding pb_field_iter_begin
begin-IsInside fields dest_struct h lt = record {
  valid = h;
  inside = lt;
  placed = pb_field_iter_begin-IsPlaced fields dest_struct;
}

-- The step keeps the iterator inside, also where it wraps.
pub next-IsInside : (iter : FieldIter) → IsInside iter → IsInside (pb_field_iter_next iter).0
next-IsInside iter h =
    let (pos, start) = next_pos iter h.valid h.inside in
    record {
      valid = rw start h.valid;
      inside = rw start (ground (arith, pos, h.inside));
      placed = pb_field_iter_next-IsPlaced iter h.placed;
    }

first_tag :
    (fields : List Field) → IsFields fields → 0 < length fields → (field_at fields 0).tag ≢ 0
first_tag [] h lt = absurd (omega arith)
first_tag (f ∷ fields) h lt = h.0

-- The number of required fields that are checked.
abbrev pub required_count : List Field → ℕ
required_count fields =
    let all = required_before fields (length fields) in if ltb 64 all then 64 else all

-- What the loop to the last field finds.
abbrev Counts : List Field → Option (ℕ × ℕ × FieldIter) → Type 0
Counts fields none = ⊥
Counts fields (some end) = req_field_count end ≡ required_count fields

-- At the last field.
req_field_count_last :
    (fields : List Field) (iter later : FieldIter)
    → IsInside iter
    → iter.start ≡ fields
    → iter.pos + 1 ≡ length fields
    → later.start ≡ fields
    → later.pos ≡ 0
    → req_field_count (iter.required_field_index, (field_at iter.start iter.pos).type, later)
      ≡ required_count fields
req_field_count_last fields iter later h same n start pos =
    let tag : (field_at later.start later.pos).tag ≢ 0 =
      rw (start, pos) (first_tag fields (subst IsFields same h.valid) (omega (arith, n))) in
    let index : iter.required_field_index ≡ required_before fields iter.pos =
      h.placed.1 ∙ rw same refl in
    let count = required_before_next fields iter.pos in
    let type : (field_at iter.start iter.pos).type ≡ (field_at fields iter.pos).type =
      rw same refl in
    rw (← n, count, index, type) (ground arith)

seek_end-Counts :
    (fields : List Field) (fuel : ℕ) (iter : FieldIter)
    → IsInside iter
    → iter.start ≡ fields
    → length fields < iter.pos + fuel
    → Counts fields (seek_end fuel iter)
unfolding seek_end
seek_end-Counts fields zero iter h same enough =
    absurd (let lt : iter.pos < length fields = rw (← same) h.inside in omega arith)
seek_end-Counts fields (suc fuel) iter h same enough =
    let (pos, start) = next_pos iter h.valid h.inside in
    let (more, dest) = next_more iter h.valid h.inside in
    elim (Bool-cases (ltb (iter.pos + 1) (length iter.start))) [
      | inl on ↦
          rw (more, on, seek_end)
            (seek_end-Counts fields fuel (pb_field_iter_next iter).0 (next-IsInside iter h)
              (start ∙ same) (ground (arith, pos, start, on, enough)))
      | inr last ↦
          let n : iter.pos + 1 ≡ length fields = rw (← same) (ground (arith, h.inside)) in
          rw (more, last, seek_end)
            (req_field_count_last fields iter (pb_field_iter_next iter).0 h same n (start ∙ same)
              (ground (arith, pos, last)))
    ]

found_end :
    (fields : List Field) (o : Option (ℕ × ℕ × FieldIter))
    → Counts fields o
    → (end : ℕ × ℕ × FieldIter) × (o ≡ some end) × (req_field_count end ≡ required_count fields)
found_end fields none h = absurd h
found_end fields (some end) h = (end, refl, h)

nothing_seen : (n : ℕ) → n ≤ 64 → all_seen n (λ i. 0) ≡ (n == 0)
unfolding all_seen whole_words holds_below
nothing_seen n h =
    let test = λ (k : ℕ). let seen = all_seen k (λ i. 0) in if k == 0 then seen else not seen in
    let here : test n ≡ true = holds_below→eq 65 test refl n (omega arith) in
    elim (Bool-cases (n == 0)) [ inl e ↦ ground (arith, here) | inr e ↦ ground (arith, here) ]

module _ {S : Type 0} (p : Services) (rounds depth : ℕ)
    (decode decode_noinit : List Field → ℕ → Filler S (Unit {0})) where
  pub check_required-count :
      (locals : Locals) (w : Work S)
      → IsInside locals.iter
      → check_required p rounds depth decode decode_noinit locals w ≡ (
          if all_seen (required_count locals.iter.start) locals.fields_seen
          then ok tt w
          else reject missing_required_field w)
  unfolding check_required
  check_required-count locals w h =
      let fields = locals.iter.start in
      let (end, found, count) =
        found_end fields _
          (seek_end-Counts fields (suc (length fields)) locals.iter h refl (omega arith)) in
      elim (Bool-cases (all_seen (required_count fields) locals.fields_seen)) [
        | inl all ↦ rw (check_required, found, count, all) refl
        | inr some_missing ↦ rw (check_required, found, count, some_missing) refl
      ]

  -- The check where no required field has been seen.
  pub check_required-nothing :
      (locals : Locals) (w : Work S)
      → IsInside locals.iter
      → locals.fields_seen ≡ (λ i. 0)
      → check_required p rounds depth decode decode_noinit locals w ≡ (
          if required_before locals.iter.start (length locals.iter.start) == 0
          then ok tt w
          else reject missing_required_field w)
  check_required-nothing locals w h unseen =
      check_required-count locals w h
      ∙ rw (unseen, nothing_seen (required_count locals.iter.start) (ground arith)) (ground arith)
