-- ===== src/Pb/DecodeMessage/Unread.antt =====
-- A message that reads none of its fields: `pb_decode_noinit` of pb_decode.c on a stream of fields
-- that the message does not have.
use flchat.Base.{
  ℕ, zero, suc, ◌+◌, ◌*◌, ◌<◌, ◌≡◌, refl, ap, ◌∙◌, arith, Option, none, List, [], ◌++◌, length,
  length-append, ◌==◌, if◌then◌else◌,
}
use flchat.Base.Memory.{Memory}
use flchat.Pb.{Field, Error, Outcome, ok, ◌>>◌, ◌>>=◌, missing_required_field}
use flchat.Pb.Decode.Reads.{reading}
use flchat.Pb.Decode.Scalars.{pb_decode_tag_read}
use flchat.Pb.Decode.Substream.{pb_skip_field-Reads}
use flchat.Pb.DecodeField.{Work, Filler, reject}
use flchat.Pb.DecodeMessage.Messages.{Locals, decode_loop, decode_message, pb_decode_noinit}
use flchat.Pb.DecodeMessage.Required.{begin-IsInside, check_required-nothing}
use flchat.Pb.DecodeMessage.Services.{Services}
use flchat.Pb.Encode.Shape.{base128, length-base128}
use flchat.Pb.Iter.{pb_field_iter_begin}
use flchat.Pb.Iter.Find.{IsFields}
use flchat.Pb.Iter.Place.{required_before}
use flchat.Pb.DecodeMessage.Unknown.{
  HasNoExtension, Unknowns, nothing, field, IsFresh, Payload-wire_type, skip_to_read,
  decode_one-skips, decode_loop_step,
}

-- A stream over these bytes alone, with the memory.
abbrev pub over : List ℕ → Option Error → Memory → Work (List ℕ)
over bs e m = record { stream = reading bs (length bs) e; memory = m }

module _ (p : Services) (rounds depth : ℕ)
    (decode decode_noinit : List Field → ℕ → Filler (List ℕ) (Unit {0})) where
  decode_loop-Unknowns :
      (fields : List Field) (bs : List ℕ) (fuel : ℕ) (locals : Locals) (e : Option Error)
      (m : Memory)
      → HasNoExtension fields
      → Unknowns fields bs
      → length bs < fuel
      → IsFresh fields locals
      → (later : Locals) × IsFresh fields later
        × (decode_loop p rounds depth decode decode_noinit fuel locals (over bs e m)
            ≡ ok later (over [] e m))
  unfolding decode_loop
  decode_loop-Unknowns fields bs zero locals e m plain us enough fresh = absurd (omega arith)
  decode_loop-Unknowns fields _ (suc fuel) locals e m plain nothing enough fresh =
      (locals, fresh, refl)
  decode_loop-Unknowns fields _ (suc fuel) locals e m plain
        (field tag wire_type payload rest ne small unknown sound us) enough fresh =
      let head = base128 9 (8 * tag + wire_type) in
      let long : length (head ++ (payload ++ rest)) ≡ length head + (length payload + length rest) =
        length-append head (payload ++ rest)
        ∙ ap (λ (n : ℕ). length head + n) (length-append payload rest) in
      let tail : Work (List ℕ) = record {
        stream = reading (payload ++ rest) (length payload + length rest) e;
        memory = m;
      } in
      let (later, fresh', skips) =
        decode_one-skips p rounds depth decode decode_noinit fields tag wire_type locals tail plain
          unknown (omega arith) fresh in
      let (last, fresh'', ends) =
        decode_loop-Unknowns fields rest fuel later e m plain us
          (omega (arith, long, length-base128 9 (8 * tag + wire_type))) fresh' in
      let tagged =
        pb_decode_tag_read tag wire_type (payload ++ rest) (length payload + length rest) e
          (Payload-wire_type wire_type payload sound) small (omega arith) in
      let skipped =
        skip_to_read p rounds depth decode decode_noinit wire_type later tail
          (reading rest (length rest) e)
          (pb_skip_field-Reads wire_type payload sound rest (length rest) e) in
      let read =
        decode_loop_step p rounds depth decode decode_noinit fuel tag wire_type locals later
          (record {
            stream =
                reading (head ++ (payload ++ rest)) (length head + (length payload + length rest))
                  e;
            memory = m;
          })
          (over rest e m) tail.stream (ground (arith, length-base128 9 (8 * tag + wire_type)))
          tagged (skips ∙ skipped) in
      (
        last,
        fresh'',
        ap
              (λ (n : ℕ).
                decode_loop p rounds depth decode decode_noinit (suc fuel) locals
                  (record { stream = reading (head ++ (payload ++ rest)) n e; memory = m }))
              long
            ∙ read
            ∙ ends,
      )

-- Begins with no field read.
begin-IsFresh :
    (fields : List Field) (dest_struct : ℕ)
    → IsFields fields
    → 0 < length fields
    → IsFresh fields (record {
      iter = (pb_field_iter_begin fields dest_struct).0;
      extension_range_start = 0;
      fixed_count_field = none;
      fields_seen = λ i. 0;
    })
unfolding pb_field_iter_begin
begin-IsFresh fields dest_struct h lt = record {
  inside = begin-IsInside fields dest_struct h lt;
  same = refl;
  uncounted = refl;
  unseen = refl;
}

-- What a message that reads none of its fields comes to.
abbrev pub unread : List Field → Memory → Outcome (Work (List ℕ)) (Unit {0})
unread fields m =
    if required_before fields (length fields) == 0
    then ok tt (over [] none m)
    else reject missing_required_field (over [] none m)

decode_message-unread :
    (p : Services) (rounds depth : ℕ)
    (decode decode_noinit : List Field → ℕ → Filler (List ℕ) (Unit {0})) (fields : List Field)
    (dest_struct : ℕ) (bs : List ℕ) (m : Memory)
    → IsFields fields
    → 0 < length fields
    → HasNoExtension fields
    → Unknowns fields bs
    → decode_message p rounds depth decode decode_noinit fields dest_struct (over bs none m)
      ≡ unread fields m
unfolding decode_message
decode_message-unread p rounds depth decode decode_noinit fields dest_struct bs m h lt plain us =
    let (later, fresh, loop) =
      decode_loop-Unknowns p rounds depth decode decode_noinit fields bs (suc (length bs)) _ none m
        plain us (omega arith) (begin-IsFresh fields dest_struct h lt) in
    let check =
      check_required-nothing p rounds depth decode decode_noinit later (over [] none m) fresh.inside
        fresh.unseen in
    rw (decode_message, ◌>>=◌, loop, ◌>>◌, fresh.uncounted) (check ∙ rw fresh.same refl)

-- A message with at least one field, with tags other than 0 and no extension field, is decoded from
-- a buffer that holds only fields of other tags, in any number and of any wire type, or nothing:
-- `pb_decode_noinit` takes all bytes and leaves the memory as it is. It succeeds if the message has
-- no required field, and otherwise fails with the message for a missing one.
pub pb_decode_noinit-unread :
    (p : Services) (rounds depth : ℕ) (fields : List Field) (dest_struct : ℕ) (bs : List ℕ)
    (m : Memory)
    → IsFields fields
    → 0 < length fields
    → HasNoExtension fields
    → Unknowns fields bs
    → pb_decode_noinit p rounds (suc depth) fields dest_struct (over bs none m) ≡ (
        if required_before fields (length fields) == 0
        then ok tt (over [] none m)
        else reject missing_required_field (over [] none m))
unfolding pb_decode_noinit
pb_decode_noinit-unread p rounds depth = decode_message-unread p rounds depth _ _
