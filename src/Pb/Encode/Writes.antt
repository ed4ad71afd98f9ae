-- ===== src/Pb/Encode/Writes.antt =====
-- What it means that an encoder writes given bytes: into a buffer with room, and into a
-- stream that only counts.
use flchat.Base.{
  ◌≢◌, subst, leb, Bool-cases, inl, inr, ℕ, ◌+◌, ◌^◌, ◌≤◌, ◌<◌, ◌≡◌, refl, ap, ◌∙◌, arith, Option,
  none, some, List, [], ◌∷◌, ◌++◌, length, length-append, take,
}
use flchat.Base.Memory.{Memory, store}
use flchat.Pb.{Error, ok, ◌>>◌, ◌>>=◌, Outcome-cases}
use flchat.Pb.Ostream.{Ostream, Cursor, Encoder, buf_write, pb_write}

-- A stream into a buffer, in the middle of its work.
abbrev pub buffered : Memory → ℕ → ℕ → ℕ → Option Error → Ostream Cursor
buffered m d size w e = record {
  callback = some buf_write;
  state = record { memory = m; dest = d };
  max_size = size;
  bytes_written = w;
  errmsg = e;
}

abbrev pub counting : Cursor → ℕ → Ostream Cursor
counting c w = record { callback = none; state = c; max_size = 0; bytes_written = w; errmsg = none }

pub record Writes (f : Encoder Cursor) (bs : List ℕ) : Type 0 where
  pub fits :
      (m : Memory) (d size w : ℕ)
      → size < 2 ^ 64
      → w + length bs ≤ size
      → f (buffered m d size w none)
        ≡ ok tt (buffered (store m d bs) (d + length bs) size (w + length bs) none)
  pub counts :
      (c : Cursor) (w : ℕ)
      → w + length bs < 2 ^ 64
      → f (counting c w) ≡ ok tt (counting c (w + length bs))
  -- Without room it returns false.
  pub overflows :
      (m : Memory) (d size w : ℕ)
      → w ≤ size
      → size < w + length bs
      → size + length bs < 2 ^ 64
      → (s' : Ostream Cursor) → f (buffered m d size w none) ≢ ok tt s'

take-length {ℓ} : {A : Type ℓ} (xs : List A) → take (length xs) xs ≡ xs
take-length [] = refl
take-length (x ∷ xs) = ap (◌∷◌ x) (take-length xs)

pub store-append :
    (xs ys : List ℕ) (m : Memory) (d : ℕ)
    → store m d (xs ++ ys) ≡ store (store m d xs) (d + length xs) ys
unfolding store
store-append [] ys m d = ap (λ (a : ℕ). store m a ys) (omega arith)
store-append (x ∷ xs) ys m d =
    store-append xs ys _ (d + 1) ∙ ap (λ (a : ℕ). store (store m d (x ∷ xs)) a ys) (omega arith)

pub pb_write-Writes : (bs : List ℕ) → Writes (pb_write bs (length bs)) bs
unfolding pb_write buf_write
pb_write-Writes bs = record {
  fits = λ m d size w small room. rw (take-length bs) (ground arith);
  counts = λ c w small. ground arith;
  overflows = λ m d size w le over sum s' h. absurd (ground arith);
}

-- Both encoders succeed where the sequence does.
pub then_ok :
    (f g : Encoder Cursor) (s s' : Ostream Cursor)
    → (f >> g) s ≡ ok tt s'
    → (t : Ostream Cursor) × (f s ≡ ok tt t) × (g t ≡ ok tt s')
then_ok f g s s' h = elim (Outcome-cases (f s)) [
  | inl (a, t, e) ↦ (t, e, rw (← h, ◌>>◌, ◌>>=◌, e) refl)
  | inr (inl (t, e)) ↦ absurd (ground (arith, e, h))
  | inr (inr e) ↦ absurd (ground (arith, e, h))
]

-- Either the first part has no room, or the second behind it.
then_overflows :
    (f g : Encoder Cursor) (xs ys : List ℕ) (m : Memory) (d size w : ℕ)
    → Writes f xs
    → Writes g ys
    → w ≤ size
    → size < w + length (xs ++ ys)
    → size + length (xs ++ ys) < 2 ^ 64
    → (s' : Ostream Cursor) → (f >> g) (buffered m d size w none) ≢ ok tt s'
then_overflows f g xs ys m d size w p q le over sum s' h =
    let (t, first, later) = then_ok f g _ s' h in
    let long = length-append xs ys in
    elim (Bool-cases (leb (w + length xs) size)) [
      | inl room ↦
          let fits = p.fits m d size w (omega arith) (ground arith) in
          let here : t ≡ buffered (store m d xs) (d + length xs) size (w + length xs) none =
            cc (first, fits) in
          q.overflows (store m d xs) (d + length xs) size (w + length xs) (ground arith)
            (omega (arith, long)) (omega (arith, long)) s'
            (subst (λ (u : Ostream Cursor). g u ≡ ok tt s') here later)
      | inr none_left ↦ p.overflows m d size w le (ground arith) (omega (arith, long)) t first
    ]

pub Writes-then :
    {f g : Encoder Cursor} {xs ys : List ℕ} → Writes f xs → Writes g ys → Writes (f >> g) (xs ++ ys)
Writes-then {f} {g} {xs} {ys} p q = record {
  fits = λ m d size w small room. ground (
    arith,
    length-append xs ys,
    store-append xs ys m d,
    p.fits m d size w small,
    q.fits (store m d xs) (d + length xs) size (w + length xs) small,
  );
  counts =
      λ c w small. ground (arith, length-append xs ys, p.counts c w, q.counts c (w + length xs));
  overflows = λ m d size w. then_overflows f g xs ys m d size w p q;
}
