-- ===== src/Pb/Present/Agrees.antt =====
-- The tests of pb_encode.c agree with their specification.
use flchat.Base.{
  ℕ, zero, suc, ◌+◌, ◌<◌, ◌≡◌, ◌⊎◌, refl, ◌∙◌, arith, Bool, true, false, inl, inr, Option, none,
  some, List, [], ◌∷◌, length, ◌==◌, if◌then◌else◌,
}
use flchat.Base.Memory.{Memory, load, u64}
use flchat.Pb.{Field}
use flchat.Pb.EncodeMessage.{is_present, entry_data}
use flchat.Pb.Iter.{FieldIter, field_at, pb_field_iter_begin, pb_field_iter_next}
use flchat.Pb.Iter.Along.{IsAt, IsAt-next, begin-IsAt}
use flchat.Pb.Iter.Find.{IsFields}
use flchat.Pb.Iter.Place.{place}
use flchat.Pb.Present.{only_zeros, all_from, has_default, is_written, data_of_entry}
use flchat.Pb.Program.{Program}
use flchat.Pb.Proto3.{all_zero, all_fields, submessage_is_default, pb_check_proto3_default_value}

all_zero-only_zeros : (n : ℕ) (m : Memory) (a : ℕ) → all_zero n m a ≡ only_zeros (load m a n)
unfolding all_zero only_zeros load
all_zero-only_zeros zero m a = refl
all_zero-only_zeros (suc n) m a = ground (arith, all_zero-only_zeros n m (a + 1))

answer_cases : (o : Option Bool) → (o ≡ none) ⊎ ((o ≡ some false) ⊎ (o ≡ some true))
answer_cases none = inl refl
answer_cases (some false) = inr (inl refl)
answer_cases (some true) = inr (inr refl)

-- The iterator's pointer is the place of its field.
data_here :
    (fields : List Field) (src i : ℕ) (iter : FieldIter)
    → IsAt fields src i iter
    → iter.p_data ≡ u64 (place fields src i)
data_here fields src i iter here =
    here.placed.0 ∙ rw (here.same_start, here.same_dest, here.same_pos) refl

all_fields-all_from :
    (fields : List Field) (src : ℕ) (test : FieldIter → Option Bool) (at : ℕ → Option Bool)
    → IsFields fields
    → ((i : ℕ) (iter : FieldIter) → i < length fields → IsAt fields src i iter → test iter ≡ at i)
    → (left fuel i : ℕ) (iter : FieldIter) → left < fuel
    → i + suc left ≡ length fields
    → IsAt fields src i iter
    → all_fields fuel test iter ≡ all_from (suc left) at i
unfolding all_fields all_from
all_fields-all_from fields src test at h parts left zero i iter enough all here =
    absurd (omega arith)
all_fields-all_from fields src test at h parts zero (suc fuel) i iter enough all here =
    let (more, later) = IsAt-next fields src i iter h (omega arith) here in
    let last : (pb_field_iter_next iter).1 ≡ false = ground (arith, more) in
    let same = parts i iter (omega arith) here in
    elim (answer_cases (at i)) [
      | inl none_there ↦ ground (arith, same, none_there)
      | inr (inl fails) ↦ ground (arith, same, fails)
      | inr (inr passes) ↦ ground (arith, same, passes, last)
    ]
all_fields-all_from fields src test at h parts (suc left) (suc fuel) i iter enough all here =
    let (more, later) = IsAt-next fields src i iter h (omega arith) here in
    let on : (pb_field_iter_next iter).1 ≡ true = ground (arith, more) in
    let same = parts i iter (omega arith) here in
    let rest =
      all_fields-all_from fields src test at h parts left fuel (i + 1) (pb_field_iter_next iter).0
        (omega arith) (omega arith) (later (omega arith)) in
    elim (answer_cases (at i)) [
      | inl none_there ↦ ground (arith, same, none_there)
      | inr (inl fails) ↦ ground (arith, same, fails)
      | inr (inr passes) ↦ ground (arith, same, passes, on, rest)
    ]

module _ (descriptors : ℕ → List Field) (m : Memory)
    (valid : (a : ℕ) → IsFields (descriptors a)) where
  submessage_default :
      (test : FieldIter → Option Bool) (at : ℕ → Option Bool) (field : Field) (a : ℕ)
      → ((i : ℕ) (iter : FieldIter)
          → i < length (descriptors field.ptr)
          → IsAt (descriptors field.ptr) a i iter
          → test iter ≡ at i)
      → submessage_is_default descriptors test field a
        ≡ all_from (length (descriptors field.ptr)) at 0
  unfolding pb_field_iter_begin all_from
  submessage_default test at field a = along (descriptors field.ptr) (valid field.ptr)
    where
      along :
          (fields : List Field)
          → IsFields fields
          → ((i : ℕ) (iter : FieldIter)
              → i < length fields
              → IsAt fields a i iter
              → test iter ≡ at i)
          → (if (pb_field_iter_begin fields a).1
              then all_fields (suc (length fields)) test (pb_field_iter_begin fields a).0
              else some true)
            ≡ all_from (length fields) at 0
      along [] h parts = refl
      along (f ∷ fields) h parts =
          let begun : (f.tag == 0) ≡ false = ground (arith, h) in
          rw begun (
            all_fields-all_from (f ∷ fields) a test at h parts (length fields)
              (suc (suc (length fields))) 0 _ (omega arith) (omega arith)
              (begin-IsAt (f ∷ fields) a))

  check-has_default :
      (depth : ℕ) (field : Field) (a : ℕ)
      → pb_check_proto3_default_value depth descriptors m field a
        ≡ has_default depth descriptors m field a
  unfolding pb_check_proto3_default_value has_default
  check-has_default zero field a = refl
  check-has_default (suc depth) field a =
      let fields = descriptors field.ptr in
      ground (
        arith,
        all_zero-only_zeros field.data_size m a,
        submessage_default
            (λ iter.
              pb_check_proto3_default_value depth descriptors m (field_at iter.start iter.pos)
                iter.p_data)
            (λ i. has_default depth descriptors m (field_at fields i) (u64 (place fields a i)))
            field a
            (λ i iter lt here.
              rw (here.same_start, here.same_pos, data_here fields a i iter here)
                (check-has_default depth (field_at fields i) (u64 (place fields a i)))),
      )

pub is_present-is_written :
    {S : Type 0} (p : Program S) (m : Memory) (depth : ℕ) (field : Field) (a : ℕ)
    → ((x : ℕ) → IsFields (p.descriptors x))
    → is_present p m depth field a ≡ is_written depth p.descriptors m field a
is_present-is_written p m depth field a valid =
    let same = check-has_default p.descriptors m valid depth field a in
    elim (answer_cases (has_default depth p.descriptors m field a)) [
      | inl e ↦ ground (arith, same, e)
      | inr (inl e) ↦ ground (arith, same, e)
      | inr (inr e) ↦ ground (arith, same, e)
    ]

pub entry_data-data_of_entry :
    {S : Type 0} (p : Program S) (m : Memory) (field : Field) (q : ℕ)
    → entry_data p m field q ≡ data_of_entry m field q
entry_data-data_of_entry p m field q = ground arith
