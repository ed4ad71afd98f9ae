-- ===== src/Pb/DecodeField/Inside.antt =====
-- The bytes of the structure that the field decoders of pb_decode.c write.
use flchat.Base.{
  ℕ, zero, suc, ◌+◌, ◌≤◌, ◌<◌, ◌≡◌, ◌≢◌, ◌⊎◌, refl, sym, ap, subst, ◌∙◌, arith, Option, List,
  length, ltb, ◌==◌, inl, inr, not, Bool-cases,
}
use flchat.Base.Memory.{Memory, store_outside}
use flchat.Pb.{Field, pb_size_max, Outcome, ok, err, stuck, ◌>>=◌, Outcome-cases}
use flchat.Pb.Decode.{pb_decode_varint32}
use flchat.Pb.Decode.Bounds.{LeavesAtMost, pb_decode_varint32_bound}
use flchat.Pb.DecodeField.{
  Work, Filler, on_stream, read_into, zero_bytes, pb_dec_fixed_length_bytes,
}
use flchat.Pb.DecodeField.Callback.{IsBounded, KeepsCallback, pb_decode_varint32-KeepsCallback}
use flchat.Pb.Istream.{Istream, pb_read}

length-zero_bytes : (n : ℕ) → length (zero_bytes n) ≡ n
unfolding zero_bytes
length-zero_bytes zero = refl
length-zero_bytes (suc n) = ap suc (length-zero_bytes n)

module _ {S : Type 0} where
  -- The outcome is a C value, and outside the `n` bytes at `a` the memory is `m`.
  abbrev pub WritesWithin : {A : Type 0} → Memory → ℕ → ℕ → Outcome (Work S) A → Type 0
  WritesWithin m a n (ok _ w) = (x : ℕ) → (x < a) ⊎ (a + n ≤ x) → w.memory x ≡ m x
  WritesWithin m a n (err w) = (x : ℕ) → (x < a) ⊎ (a + n ≤ x) → w.memory x ≡ m x
  WritesWithin m a n stuck = ⊥

  read_bounded :
      (s t : Istream S) (count : ℕ) (bytes : List ℕ)
      → IsBounded s.callback
      → pb_read count s ≡ ok bytes t
      → length bytes ≤ count
  unfolding pb_read
  read_bounded s t count bytes h e =
      ground (arith, h s.state (s.callback s.state count).0 count bytes)

  read_returns : (s : Istream S) (count : ℕ) → pb_read count s ≢ stuck
  unfolding pb_read
  read_returns s count e = ground arith

  -- A read into the middle of the place.
  pub read_into-WritesWithin :
      (m : Memory) (a n at count : ℕ) (w : Work S)
      → IsBounded w.stream.callback
      → ((x : ℕ) → (x < a) ⊎ (a + n ≤ x) → w.memory x ≡ m x)
      → a ≤ at
      → at + count ≤ a + n
      → WritesWithin m a n (read_into at count w)
  read_into-WritesWithin m a n at count w h same lo hi =
      elim (Outcome-cases (pb_read count w.stream)) [
        | inl (bytes, t, e) ↦
            rw (e, on_stream, ◌>>=◌, read_into)
              (λ x out.
                store_outside bytes w.memory at x
                  (let short = read_bounded w.stream t count bytes h e in ground arith)
                ∙ same x out)
        | inr (inl (t, e)) ↦ rw (e, on_stream, ◌>>=◌, read_into) same
        | inr (inr e) ↦ absurd (read_returns w.stream count e)
      ]

  -- The rule for the length in front of the data: the stream behind it has the same callback.
  pub length_then :
      (a n : ℕ) (k : ℕ → Filler S (Unit {0})) (w : Work S)
      → ((size : ℕ) (t : Istream S)
          → t.callback ≡ w.stream.callback
          → WritesWithin w.memory a n (k size (record { stream = t; memory = w.memory })))
      → WritesWithin w.memory a n ((on_stream pb_decode_varint32 >>= k) w)
  length_then a n k w next = elim (Outcome-cases (pb_decode_varint32 w.stream)) [
    | inl (size, t, e) ↦
        let keeps : t.callback ≡ w.stream.callback =
          subst (KeepsCallback w.stream.callback) e
            (pb_decode_varint32-KeepsCallback w.stream.callback w.stream refl) in
        rw (e, on_stream, ◌>>=◌) (next size t keeps)
    | inr (inl (t, e)) ↦ rw (e, on_stream, ◌>>=◌) (λ x out. refl)
    | inr (inr e) ↦
        let no : ⊥ =
          subst (LeavesAtMost w.stream.bytes_left) e
            (pb_decode_varint32_bound w.stream.bytes_left w.stream (omega arith)) in
        absurd no
  ]

  pub IsBounded-as : (c c' : S → ℕ → S × Option (List ℕ)) → c' ≡ c → IsBounded c → IsBounded c'
  IsBounded-as c c' e h = subst (λ (d : S → ℕ → S × Option (List ℕ)). IsBounded d) (sym e) h

  -- On every stream, whose callback gives at most the bytes that it is asked for,
  -- `pb_dec_fixed_length_bytes` returns, and whether it succeeds or fails it has written only into
  -- the `data_size` bytes at `dest`.
  pub pb_dec_fixed_length_bytes-WritesWithin :
      (field : Field) (dest : ℕ) (w : Work S)
      → IsBounded w.stream.callback
      → WritesWithin w.memory dest field.data_size (pb_dec_fixed_length_bytes field dest w)
  unfolding pb_dec_fixed_length_bytes
  pb_dec_fixed_length_bytes-WritesWithin field dest w h =
      let n = field.data_size in
      length_then dest n _ w λ size t keeps. elim (Bool-cases (ltb pb_size_max size)) [
        | inl big ↦ rw big (λ x out. refl)
        | inr fits ↦ elim (Bool-cases (size == 0)) [
          | inl empty ↦
              rw (fits, empty)
                (λ x out.
                  store_outside (zero_bytes n) w.memory dest x
                    (ground (arith, length-zero_bytes n)))
          | inr more ↦ elim (Bool-cases (not (size == n))) [
            | inl wrong ↦ rw (fits, more, wrong) (λ x out. refl)
            | inr right ↦
                rw (fits, more, right)
                  (read_into-WritesWithin w.memory dest n dest n
                    (record { stream = t; memory = w.memory }) (IsBounded-as _ _ keeps h)
                    (λ x out. refl) (omega arith) (omega arith))
          ]
        ]
      ]
