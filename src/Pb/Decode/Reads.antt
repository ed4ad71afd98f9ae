-- ===== src/Pb/Decode/Reads.antt =====
-- What it means that a decoder reads given bytes from a buffer.
use flchat.Base.{
  ℕ, ◌+◌, ◌≡◌, arith, true, Option, List, [], ◌∷◌, ◌++◌, append_assoc, length, length-append,
  take-append, drop-append,
}
use flchat.Pb.{Error, ok, ◌>>=◌}
use flchat.Pb.Istream.{Istream, Decoder, buf_read, pb_read, pb_read_null, pb_readbyte}

-- A stream over the bytes from its pointer on, in the middle of its work.
abbrev pub reading : List ℕ → ℕ → Option Error → Istream (List ℕ)
reading source left e = record {
  callback = buf_read;
  from_buffer = true;
  state = source;
  bytes_left = left;
  errmsg = e;
}

-- `f` takes `bs`, and no more, and answers `a`.
abbrev pub Reads : {A : Type 0} → Decoder (List ℕ) A → List ℕ → A → Type 0
Reads f bs a =
    (rest : List ℕ) (left : ℕ) (e : Option Error)
    → f (reading (bs ++ rest) (length bs + left) e) ≡ ok a (reading rest left e)

pub pb_readbyte-Reads : (b : ℕ) → Reads pb_readbyte (b ∷ []) b
unfolding pb_readbyte buf_read
pb_readbyte-Reads b rest left e = ground arith

pub pb_read-Reads : (bs : List ℕ) → Reads (pb_read (length bs)) bs bs
unfolding pb_read buf_read
pb_read-Reads bs rest left e = ground (arith, take-append bs rest, drop-append bs rest)

pub pb_read_null-Reads : (bs : List ℕ) → Reads (pb_read_null (length bs)) bs tt
unfolding pb_read_null
pb_read_null-Reads bs rest left e = ground (arith, pb_read-Reads bs rest left e)

pub Reads-then :
    {A B : Type 0} (f : Decoder (List ℕ) A) (g : A → Decoder (List ℕ) B) (xs ys : List ℕ) (a : A)
    (b : B)
    → Reads f xs a
    → Reads (g a) ys b
    → Reads (f >>= g) (xs ++ ys) b
Reads-then f g xs ys a b p q rest left e = ground (
  arith,
  append_assoc xs ys rest,
  length-append xs ys,
  p (ys ++ rest) (length ys + left) e,
  q rest left e,
)
