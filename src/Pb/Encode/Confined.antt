-- ===== src/Pb/Encode/Confined.antt =====
-- The memory that the writers of pb_encode.c change, in a stream into a buffer.
use flchat.Base.{
  ℕ, ◌+◌, ◌^◌, ◌≤◌, ◌<◌, ◌≡◌, ◌⊎◌, refl, ap, arith, Option, List, [], ◌∷◌, Bool-cases, not_ltb→le,
  sym, subst, ◌∙◌, length, take, ltb, inl, inr,
}
use flchat.Base.Memory.{Memory, store, store_outside, u64}
use flchat.Pb.{Error, Outcome, ok, err, stuck, Outcome-cases, ◌>>◌, ◌>>=◌}
use flchat.Pb.Encode.{pb_encode_varint, pb_encode_string}
use flchat.Pb.Encode.Shape.{base128, length-base128, pb_encode_varint-base128}
use flchat.Pb.Encode.Writes.{buffered}
use flchat.Pb.Ostream.{Ostream, Cursor, Encoder, buf_write, pb_write}

take_all {ℓ} : {A : Type ℓ} (xs : List A) → take (length xs) xs ≡ xs
take_all [] = refl
take_all (x ∷ xs) = ap (◌∷◌ x) (take_all xs)

-- A stream into the buffer of `size` bytes at `buf`, behind the `w` bytes that it has written.
abbrev pub inside_at : Memory → ℕ → ℕ → ℕ → Option Error → Ostream Cursor
inside_at k buf size w e = buffered k (buf + w) size w e

-- The stream is such a stream, not past the end, and outside the buffer its memory is that of `m`.
pub record IsInside (m : Memory) (buf size : ℕ) (s : Ostream Cursor) : Type 0 where
  pub written_le : s.bytes_written ≤ size
  pub stream : s ≡ inside_at s.state.memory buf size s.bytes_written s.errmsg
  pub outside : (x : ℕ) → (x < buf) ⊎ (buf + size ≤ x) → s.state.memory x ≡ m x

-- The call returns, with the stream inside the buffer.
abbrev pub Confined : Memory → ℕ → ℕ → Outcome (Ostream Cursor) (Unit {0}) → Type 0
Confined m buf size (ok _ s) = IsInside m buf size s
Confined m buf size (err s) = IsInside m buf size s
Confined m buf size stuck = ⊥

write_inside :
    (m k : Memory) (buf size w : ℕ) (e : Option Error) (bytes : List ℕ)
    → w ≤ size
    → ((x : ℕ) → (x < buf) ⊎ (buf + size ≤ x) → k x ≡ m x)
    → size + length bytes < 2 ^ 64
    → Confined m buf size (pb_write bytes (length bytes) (inside_at k buf size w e))
unfolding pb_write buf_write
write_inside m k buf size w e bytes le same small =
    elim (Bool-cases (ltb size (u64 (w + length bytes)))) [
      | inl full ↦ rw full (record { written_le = le; stream = refl; outside = same })
      | inr room ↦
          rw (room, take_all bytes)
            (record {
              written_le = not_ltb→le _ _ room;
              stream =
                  ap
                    (λ (d : ℕ).
                      buffered (store k (buf + w) bytes) d size (u64 (w + length bytes)) e)
                    (omega (arith, not_ltb→le _ _ room));
              outside = λ x out.
                  store_outside bytes k (buf + w) x (ground (arith, not_ltb→le _ _ room))
                  ∙ same x out;
            })
    ]

-- Where a stream is inside a buffer, `pb_write` of `count` bytes returns and leaves it inside, full
-- or not: nothing outside the buffer is written. The sizes add up below 2^64.
pub pb_write-Confined :
    (m : Memory) (buf size : ℕ) (bytes : List ℕ) (s : Ostream Cursor)
    → IsInside m buf size s
    → size + length bytes < 2 ^ 64
    → Confined m buf size (pb_write bytes (length bytes) s)
pb_write-Confined m buf size bytes s inside small =
    subst (λ (t : Ostream Cursor). Confined m buf size (pb_write bytes (length bytes) t))
      (sym inside.stream)
      (write_inside m _ buf size s.bytes_written s.errmsg bytes inside.written_le inside.outside
        small)

-- The same of `pb_encode_varint`, of a 64-bit number, in a buffer of less than 2^64 - 10 bytes.
pub pb_encode_varint-Confined :
    (m : Memory) (buf size v : ℕ) (s : Ostream Cursor)
    → IsInside m buf size s
    → v < 2 ^ 64
    → size + 10 < 2 ^ 64
    → Confined m buf size (pb_encode_varint v s)
pb_encode_varint-Confined m buf size v s inside h small =
    rw (pb_encode_varint-base128 {S = Cursor} v h)
      (pb_write-Confined m buf size (base128 9 v) s inside (omega (arith, length-base128 9 v)))

Confined-then :
    (m : Memory) (buf size : ℕ) (f g : Encoder Cursor) (s : Ostream Cursor)
    → Confined m buf size (f s)
    → ((t : Ostream Cursor) → IsInside m buf size t → Confined m buf size (g t))
    → Confined m buf size ((f >> g) s)
Confined-then m buf size f g s h k = elim (Outcome-cases (f s)) [
  | inl (a, t, e) ↦ let inside = rw e at h in rw (e, ◌>>◌, ◌>>=◌) (k t inside)
  | inr (inl (t, e)) ↦ let inside = rw e at h in rw (e, ◌>>◌, ◌>>=◌) inside
  | inr (inr e) ↦ let no = rw e at h in absurd no
]

-- Where a stream is inside a buffer, `pb_encode_string` returns and leaves it inside, also where
-- the length fits and the bytes do not: nothing outside the buffer is written. The sizes add up
-- below 2^64 - 10.
pub pb_encode_string-Confined :
    (m : Memory) (buf size : ℕ) (bytes : List ℕ) (s : Ostream Cursor)
    → IsInside m buf size s
    → size + length bytes + 10 < 2 ^ 64
    → Confined m buf size (pb_encode_string bytes (length bytes) s)
unfolding pb_encode_string
pb_encode_string-Confined m buf size bytes s inside small =
    Confined-then m buf size (pb_encode_varint (length bytes)) (pb_write bytes (length bytes)) s
      (pb_encode_varint-Confined m buf size (length bytes) s inside (omega arith) (omega arith))
      (λ t inside'. pb_write-Confined m buf size bytes t inside' (omega arith))
