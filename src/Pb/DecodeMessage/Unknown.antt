-- ===== src/Pb/DecodeMessage/Unknown.antt =====
-- Fields that a message does not have: what `pb_decode_noinit` of pb_decode.c makes of them.
use flchat.Base.{
  ℕ, suc, ◌+◌, ◌-◌, ◌*◌, ◌^◌, ◌<◌, ◌≡◌, ◌≢◌, refl, ◌∙◌, arith, Bool, true, false, Option, none,
  some, List, [], ◌++◌, length, ltb, ◌==◌, Bool-cases, inl, inr,
}
use flchat.Pb.{Field, pb_ltype, ok, ◌>>◌, ◌>>=◌, return}
use flchat.Pb.Decode.{pb_decode_tag, pb_skip_field}
use flchat.Pb.Decode.Substream.{Payload, varint, bit64, string, bit32}
use flchat.Pb.DecodeField.{Work, Filler, on_stream}
use flchat.Pb.DecodeMessage.Messages.{Locals, decode_unknown, decode_one, decode_loop}
use flchat.Pb.DecodeMessage.Required.{IsInside}
use flchat.Pb.DecodeMessage.Search.{Missed, pb_field_iter_find-Missed, find_extension_field-Missed}
use flchat.Pb.DecodeMessage.Services.{Services}
use flchat.Pb.Encode.Shape.{base128}
use flchat.Pb.Istream.{Istream}
use flchat.Pb.Iter.{FieldIter, field_at, is_wanted}
use flchat.Pb.LType

-- No field of the message has the tag.
abbrev pub IsUnknown : List Field → ℕ → Type 0
IsUnknown fields tag = (i : ℕ) → i < length fields → is_wanted tag (field_at fields i) ≡ false

abbrev pub HasNoExtension : List Field → Type 0
HasNoExtension fields =
    (i : ℕ) → i < length fields → (pb_ltype (field_at fields i).type == LType.extension) ≡ false

-- Bytes of fields, one after another, that the message does not have.
pub data Unknowns (fields : List Field) : List ℕ → Type 0 where
  nothing : Unknowns fields []
  field :
      (tag wire_type : ℕ) (payload rest : List ℕ)
      → tag ≢ 0
      → 8 * tag + wire_type < 2 ^ 32
      → IsUnknown fields tag
      → Payload wire_type payload
      → Unknowns fields rest
      → Unknowns fields (base128 9 (8 * tag + wire_type) ++ (payload ++ rest))

-- The variables of `pb_decode_noinit` where no field of the message has been read.
pub record IsFresh (fields : List Field) (locals : Locals) : Type 0 where
  pub inside : IsInside locals.iter
  pub same : locals.iter.start ≡ fields
  pub uncounted : locals.fixed_count_field ≡ none
  pub unseen : locals.fields_seen ≡ (λ i. 0)

pub Payload-wire_type : (wire_type : ℕ) (bs : List ℕ) → Payload wire_type bs → wire_type < 8
Payload-wire_type _ _ (varint v h) = omega arith
Payload-wire_type _ _ (bit64 v) = omega arith
Payload-wire_type _ _ (string bs h) = omega arith
Payload-wire_type _ _ (bit32 v) = omega arith

missed :
    (fields : List Field) (o : Option (FieldIter × Bool))
    → Missed fields o
    → (iter : FieldIter) × (o ≡ some (iter, false)) × IsInside iter × (iter.start ≡ fields)
missed fields none h = absurd h
missed fields (some (iter, true)) h = absurd h
missed fields (some (iter, false)) h = (iter, refl, h.0, h.1)

module _ {S : Type 0} (p : Services) (rounds depth : ℕ)
    (decode decode_noinit : List Field → ℕ → Filler S (Unit {0})) where
  -- Skips a field and goes on with the variables.
  abbrev pub skip_to : ℕ → Locals → Filler S Locals
  skip_to wire_type locals = on_stream (pb_skip_field wire_type) >> return locals

  pub skip_to_read :
      (wire_type : ℕ) (locals : Locals) (w : Work S) (s : Istream S)
      → pb_skip_field wire_type w.stream ≡ ok tt s
      → skip_to wire_type locals w ≡ ok locals (record w { stream = s })
  skip_to_read wire_type locals w s e = rw (skip_to, ◌>>◌, ◌>>=◌, on_stream, e) refl

  decode_unknown-skips :
      (fields : List Field) (tag wire_type : ℕ) (locals : Locals) (w : Work S)
      → HasNoExtension fields
      → tag < 2 ^ 32 - 1
      → IsFresh fields locals
      → (later : Locals) × IsFresh fields later
        × (decode_unknown p rounds depth decode decode_noinit tag wire_type locals w
            ≡ skip_to wire_type later w)
  unfolding decode_unknown
  decode_unknown-skips fields tag wire_type locals w plain low fresh =
      elim (Bool-cases (ltb tag locals.extension_range_start)) [
        | inl before ↦ (locals, fresh, rw (decode_unknown, before) refl)
        | inr on ↦
            let (iter, none_found, inside, start) =
              missed locals.iter.start _
                (find_extension_field-Missed locals.iter fresh.inside (rw fresh.same plain)) in
            let later : Locals = record locals {
              iter = iter;
              extension_range_start = 2 ^ 32 - 1;
            } in
            let fresh' : IsFresh fields later = record {
              inside = inside;
              same = start ∙ fresh.same;
              uncounted = fresh.uncounted;
              unseen = fresh.unseen;
            } in
            let under : ltb tag (2 ^ 32 - 1) ≡ true = ground arith in
            (later, fresh', rw (decode_unknown, on, none_found, under) refl)
      ]

  pub decode_one-skips :
      (fields : List Field) (tag wire_type : ℕ) (locals : Locals) (w : Work S)
      → HasNoExtension fields
      → IsUnknown fields tag
      → tag < 2 ^ 32 - 1
      → IsFresh fields locals
      → (later : Locals) × IsFresh fields later
        × (decode_one p rounds depth decode decode_noinit tag wire_type locals w
            ≡ skip_to wire_type later w)
  decode_one-skips fields tag wire_type locals w plain unknown low fresh =
      let (iter, not_found, inside, start) =
        missed locals.iter.start _
          (pb_field_iter_find-Missed tag locals.iter fresh.inside (rw fresh.same unknown)) in
      let fresh' : IsFresh fields (record locals { iter = iter }) = record {
        inside = inside;
        same = start ∙ fresh.same;
        uncounted = fresh.uncounted;
        unseen = fresh.unseen;
      } in
      let (later, fresh'', skips) =
        decode_unknown-skips fields tag wire_type (record locals { iter = iter }) w plain low
          fresh' in
      (later, fresh'', rw (decode_one, not_found) skips)

  -- A round of the loop that reads a tag.
  pub decode_loop_step :
      (fuel tag wire_type : ℕ) (locals later : Locals) (w after : Work S) (s : Istream S)
      → (w.stream.bytes_left == 0) ≡ false
      → pb_decode_tag w.stream ≡ (ok (tag, wire_type) s, false)
      → decode_one p rounds depth decode decode_noinit tag wire_type locals
          (record w { stream = s })
        ≡ ok later after
      → decode_loop p rounds depth decode decode_noinit (suc fuel) locals w
        ≡ decode_loop p rounds depth decode decode_noinit fuel later after
  unfolding decode_loop
  decode_loop_step fuel tag wire_type locals later w after s some_left tagged one =
      rw (decode_loop, some_left, tagged, ◌>>=◌, one) refl
