-- ===== src/Pb/Format/Rules.antt =====
-- Rules that carry a piece of the wire format over to its encoder, one for each way to build one.
use mathlib.Core.Path.{fun_ext}
use flchat.Base.{
  ◌≢◌, ◌≤◌, leb, Bool-cases, inl, inr, ℕ, ◌+◌, ◌^◌, ◌<◌, ◌≡◌, refl, sym, subst, ap, ◌∙◌, arith,
  Bool, true, false, none, some, List, [], ◌++◌, length, length-append, if◌then◌else◌,
}
use flchat.Base.Memory.{Memory, store}
use flchat.Pb.{ok, ◌>>◌, return, Error, Outcome-cases, ◌>>=◌}
use flchat.Pb.Encode.{pb_encode_varint}
use flchat.Pb.Encode.Scalars.{pb_encode_varint-Writes}
use flchat.Pb.Encode.Writes.{Writes, Writes-then, then_ok, buffered, counting, store-append}
use flchat.Pb.Decode.Substream.{delimited}
use flchat.Pb.Encode.Shape.{base128}
use flchat.Pb.EncodeArray.{undefined, pb_encode_submessage, write_submessage}
use flchat.Pb.Format.{Bytes, ◌⊕◌, delimited_bytes}
use flchat.Pb.Ostream.{Ostream, Cursor, Encoder, fail, pb_write, pb_ostream_sizing}

-- The encoder returns true on no stream.
abbrev pub Refuses : Encoder Cursor → Type 0
Refuses f = (s s' : Ostream Cursor) → f s ≢ ok tt s'

pub fail-Refuses : (e : Error) → Refuses (fail e)
fail-Refuses e s s' h = absurd (cc)

pub stuck-Refuses : Refuses undefined
stuck-Refuses s s' h = absurd (cc)

-- The encoder writes the bytes, where there are any and they are fewer than 2^64, and refuses where
-- there are none.
pub record Implements (f : Encoder Cursor) (xs : Bytes) : Type 0 where
  pub writes : (bs : List ℕ) → xs ≡ some bs → length bs < 2 ^ 64 → Writes f bs
  pub refuses : xs ≡ none → Refuses f

pub Implements-none : (f : Encoder Cursor) → Refuses f → Implements f none
Implements-none f r = record { writes = λ bs e. absurd (cc); refuses = λ e. r }

pub Implements-some :
    (f : Encoder Cursor) (xs : List ℕ) → (length xs < 2 ^ 64 → Writes f xs) → Implements f (some xs)
Implements-some f xs w = record {
  writes = λ bs e small. let same : xs ≡ bs = cc in subst (Writes f) same (w (rw same small));
  refuses = λ e. absurd (cc);
}

pub Implements-same :
    (f g : Encoder Cursor) (xs : Bytes)
    → ((s : Ostream Cursor) → f s ≡ g s)
    → Implements g xs
    → Implements f xs
Implements-same f g xs same h =
    subst (λ (k : Encoder Cursor). Implements k xs) (sym (fun_ext same)) h

Writes-nothing : Writes (return tt) []
unfolding store
Writes-nothing = record {
  fits = λ m d size w small room. ground arith;
  counts = λ c w small. ground arith;
  overflows = λ m d size w le over. absurd (omega arith);
}

pub Implements-return : Implements (return tt) (some [])
Implements-return = Implements-some (return tt) [] (λ small. Writes-nothing)

pub Implements-if :
    (b : Bool) (f g : Encoder Cursor) (xs ys : Bytes)
    → Implements f xs
    → Implements g ys
    → Implements (if b then f else g) (if b then xs else ys)
Implements-if true f g xs ys p q = p
Implements-if false f g xs ys p q = q

-- Bytes of two parts have both.
pub ⊕-some :
    (xs ys : Bytes) (bs : List ℕ)
    → (xs ⊕ ys) ≡ some bs
    → (ds : List ℕ) × (cs : List ℕ) × (xs ≡ some ds) × (ys ≡ some cs) × (bs ≡ ds ++ cs)
⊕-some none ys bs e = absurd (cc)
⊕-some (some ds) none bs e = absurd (cc)
⊕-some (some ds) (some cs) bs e = (ds, cs, refl, refl, cc)

-- A part behind other bytes that has none.
pub behind-Refuses :
    (f g : Encoder Cursor) (ds : List ℕ) (ys : Bytes)
    → Implements g ys
    → (some ds ⊕ ys) ≡ none
    → Refuses (f >> g)
behind-Refuses f g ds none q e s s' h =
    let (t, first, later) = then_ok f g s s' h in q.refuses refl t s' later
behind-Refuses f g ds (some ys) q e s s' h = absurd (cc)

-- Without the bytes of the whole, one part has none.
then-Refuses :
    (f g : Encoder Cursor) (xs ys : Bytes)
    → Implements f xs
    → Implements g ys
    → (xs ⊕ ys) ≡ none
    → Refuses (f >> g)
then-Refuses f g none ys p q e =
    λ s s' h. let (t, first, later) = then_ok f g s s' h in p.refuses refl s t first
then-Refuses f g (some xs) ys p q e = behind-Refuses f g xs ys q e

pub Implements-then :
    (f g : Encoder Cursor) (xs ys : Bytes)
    → Implements f xs
    → Implements g ys
    → Implements (f >> g) (xs ⊕ ys)
Implements-then f g xs ys p q = record {
  writes = λ bs e small.
      let (ds, cs, first, later, both) = ⊕-some xs ys bs e in
      let long : length bs ≡ length ds + length cs = ap length both ∙ length-append ds cs in
      subst (Writes (f >> g)) (sym both)
        (Writes-then (p.writes ds first (omega arith)) (q.writes cs later (omega arith)));
  refuses = then-Refuses f g xs ys p q;
}

-- `pb_encode_submessage` counts what it then writes.
submessage_counted :
    (null : Cursor) (encode : Encoder Cursor) (bs : List ℕ) (s : Ostream Cursor)
    → length bs < 2 ^ 64
    → Writes encode bs
    → pb_encode_submessage null encode s ≡ write_submessage encode (length bs) s
unfolding pb_encode_submessage pb_ostream_sizing
submessage_counted null encode bs s small w =
    let count : encode (counting null 0) ≡ ok tt (counting null (length bs)) =
      w.counts null 0 (omega arith) ∙ ap (λ (n : ℕ). ok tt (counting null n)) (omega arith) in
    rw (count, pb_encode_submessage) refl

-- A length, and what refuses behind it.
pub behind_length :
    (n : ℕ) (k : Unit {0} → Encoder Cursor) (m : Memory) (d size written : ℕ) (s' : Ostream Cursor)
    → n < 2 ^ 64
    → written ≤ size
    → size < 2 ^ 64
    → size + length (base128 9 n) < 2 ^ 64
    → (written + length (base128 9 n) ≤ size
        → k tt (
            buffered
              (store m d (base128 9 n))
              (d + length (base128 9 n))
              size
              (written + length (base128 9 n))
              none)
          ≢ ok tt s')
    → (pb_encode_varint n >>= k) (buffered m d size written none) ≢ ok tt s'
behind_length n k m d size written s' small le fits sum later h =
    let w = pb_encode_varint-Writes n small in
    elim (Bool-cases (leb (written + length (base128 9 n)) size)) [
      | inl room ↦
          later (ground arith) (rw (← h, ◌>>=◌, w.fits m d size written fits (ground arith)) refl)
      | inr no_room ↦ elim (Outcome-cases (pb_encode_varint n (buffered m d size written none))) [
        | inl (a, t, e) ↦ w.overflows m d size written le (ground arith) sum t e
        | inr (inl (t, e)) ↦ absurd (ground (arith, e, h))
        | inr (inr e) ↦ absurd (ground (arith, e, h))
      ]
    ]

-- The room for a submessage is checked behind its length.
submessage_overflows :
    (encode : Encoder Cursor) (bs : List ℕ) (m : Memory) (d size written : ℕ)
    → length bs < 2 ^ 64
    → written ≤ size
    → size < written + length (delimited bs)
    → size + length (delimited bs) < 2 ^ 64
    → (s' : Ostream Cursor)
    → write_submessage encode (length bs) (buffered m d size written none) ≢ ok tt s'
submessage_overflows encode bs m d size written small le over sum s' =
    let long : length (delimited bs) ≡ length (base128 9 (length bs)) + length bs =
      length-append (base128 9 (length bs)) bs in
    behind_length (length bs) _ m d size written s' small le (omega arith) (omega (arith, long))
      (λ room h. ground (arith, h, long))

-- A length and that many bytes.
pub pb_encode_submessage-Writes :
    (null : Cursor) (encode : Encoder Cursor) (bs : List ℕ)
    → length bs < 2 ^ 64
    → Writes encode bs
    → Writes (pb_encode_submessage null encode) (delimited bs)
unfolding pb_write
pb_encode_submessage-Writes null encode bs small w = record {
  fits = λ m d size written small' room.
      let head = base128 9 (length bs) in
      let long : length (delimited bs) ≡ length head + length bs = length-append head bs in
      submessage_counted null encode bs _ small w
      ∙ ground (
        arith,
        long,
        (pb_encode_varint-Writes (length bs) small).fits m d size written small',
        w.fits (store m d head) (d + length head) (length bs) 0,
        store-append head bs m d,
      );
  counts = λ c written small'.
      let head = base128 9 (length bs) in
      let long : length (delimited bs) ≡ length head + length bs = length-append head bs in
      submessage_counted null encode bs _ small w
      ∙ ground (arith, long, (pb_encode_varint-Writes (length bs) small).counts c written);
  overflows = λ m d size written le over sum s' h.
      let head = base128 9 (length bs) in
      let counted = submessage_counted null encode bs (buffered m d size written none) small w in
      submessage_overflows encode bs m d size written small le over sum s' (sym counted ∙ h);
}

-- What cannot be counted is not written.
pb_encode_submessage-Refuses :
    (null : Cursor) (encode : Encoder Cursor)
    → Refuses encode
    → Refuses (pb_encode_submessage null encode)
unfolding pb_encode_submessage
pb_encode_submessage-Refuses null encode r s s' h =
    elim (Outcome-cases (encode (pb_ostream_sizing null))) [
      | inl (a, t, e) ↦ r (pb_ostream_sizing null) t e
      | inr (inl (t, e)) ↦ absurd (ground (arith, e, h))
      | inr (inr e) ↦ absurd (ground (arith, e, h))
    ]

pub submessage-Implements :
    (null : Cursor) (encoder : Encoder Cursor) (xs : Bytes)
    → Implements encoder xs
    → Implements (pb_encode_submessage null encoder) (delimited_bytes xs)
submessage-Implements null encoder none h =
    Implements-none _ (pb_encode_submessage-Refuses null encoder (h.refuses refl))
submessage-Implements null encoder (some bs) h = Implements-some _ _ λ small.
    let fits : length bs < 2 ^ 64 = omega (arith, length-append (base128 9 (length bs)) bs) in
    pb_encode_submessage-Writes null encoder bs fits (h.writes bs refl fits)
