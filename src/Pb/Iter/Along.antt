-- ===== src/Pb/Iter/Along.antt =====
-- The iterator of pb_common.c along the fields of a structure.
use flchat.Base.{ℕ, ◌+◌, ◌<◌, ◌≡◌, refl, ◌∙◌, arith, List, length, ltb}
use flchat.Pb.{Field}
use flchat.Pb.Iter.{FieldIter, pb_field_iter_begin, pb_field_iter_next}
use flchat.Pb.Iter.Find.{IsFields, next_pos, next_more}
use flchat.Pb.Iter.Place.{IsPlaced, pb_field_iter_begin-IsPlaced, pb_field_iter_next-IsPlaced}

-- The loop's iterator at field `i` of the structure at `src`.
pub record IsAt (fields : List Field) (src i : ℕ) (iter : FieldIter) : Type 0 where
  pub same_start : iter.start ≡ fields
  pub same_dest : iter.dest_struct ≡ src
  pub same_pos : iter.pos ≡ i
  pub placed : IsPlaced iter

pub IsAt-next :
    (fields : List Field) (src i : ℕ) (iter : FieldIter)
    → IsFields fields
    → i < length fields
    → IsAt fields src i iter
    → ((pb_field_iter_next iter).1 ≡ ltb (i + 1) (length fields))
      × (i + 1 < length fields → IsAt fields src (i + 1) (pb_field_iter_next iter).0)
IsAt-next fields src i iter h lt here =
    let valid : IsFields iter.start = rw here.same_start h in
    let inside : iter.pos < length iter.start = rw (here.same_start, here.same_pos) lt in
    let (pos, start) = next_pos iter valid inside in
    let (more, dest) = next_more iter valid inside in
    (
      more ∙ rw (here.same_start, here.same_pos) refl,
      λ later. record {
        same_start = start ∙ here.same_start;
        same_dest = dest ∙ here.same_dest;
        same_pos = ground (arith, pos, here.same_pos, here.same_start);
        placed = pb_field_iter_next-IsPlaced iter here.placed;
      },
    )

pub begin-IsAt :
    (fields : List Field) (src : ℕ) → IsAt fields src 0 (pb_field_iter_begin fields src).0
unfolding pb_field_iter_begin
begin-IsAt fields src = record {
  same_start = refl;
  same_dest = refl;
  same_pos = refl;
  placed = pb_field_iter_begin-IsPlaced fields src;
}
