-- ===== src/Pb/DecodeField/Static.antt =====
-- `pb_dec_string` and `pb_dec_bytes` of pb_decode.c, for fields that stand in the structure itself.
use flchat.Base.{ℕ, ◌+◌, ◌≤◌, ◌<◌, ◌≡◌, ◌≢◌, refl, arith, ltb, ◌==◌, inl, inr, false, Bool-cases}
use flchat.Base.Memory.{Memory, store_outside, to_le, length-to_le, u32, u64}
use flchat.Pb.{Field, pb_atype, pb_size_max, Outcome, ok, err, stuck}
use flchat.Pb.AType
use flchat.Pb.DecodeField.{Work, terminate, pb_dec_bytes, pb_dec_string}
use flchat.Pb.DecodeField.Callback.{IsBounded}
use flchat.Pb.DecodeField.Inside.{WritesWithin, length_then, read_into-WritesWithin, IsBounded-as}

not_pointer :
    (field : Field)
    → pb_atype field.type ≢ AType.pointer
    → (pb_atype field.type == AType.pointer) ≡ false
not_pointer field ne = ground arith

module _ {S : Type 0} (pb_realloc : Memory → ℕ → ℕ → Memory × ℕ) where
  terminate-WritesWithin :
      (m : Memory) (a n end : ℕ) (o : Outcome (Work S) (Unit {0}))
      → a ≤ end
      → end < a + n
      → WritesWithin m a n o
      → WritesWithin m a n (terminate end o)
  terminate-WritesWithin m a n end (ok _ w) lo hi h = λ x out. ground (arith, h x out)
  terminate-WritesWithin m a n end (err w) lo hi h = λ x out. ground (arith, h x out)
  terminate-WritesWithin m a n end stuck lo hi h = h

  -- On every stream, whose callback gives at most the bytes that it is asked for, `pb_dec_string` of
  -- a field that is no pointer returns, and whether it succeeds or fails it has written only into
  -- the `data_size` bytes at `dest`, its final 0 included.
  pub pb_dec_string-WritesWithin :
      (field : Field) (dest : ℕ) (w : Work S)
      → pb_atype field.type ≢ AType.pointer
      → IsBounded w.stream.callback
      → WritesWithin w.memory dest field.data_size (pb_dec_string pb_realloc field dest w)
  unfolding pb_dec_string
  pb_dec_string-WritesWithin field dest w ne h =
      let n = field.data_size in
      length_then dest n _ w λ size t keeps. elim (Bool-cases (ltb (u32 (size + 1)) size)) [
        | inl wrapped ↦ rw wrapped (λ x out. refl)
        | inr sound ↦ elim (Bool-cases (ltb n (u32 (size + 1)))) [
          | inl long ↦ rw (sound, not_pointer field ne, long) (λ x out. refl)
          | inr fits ↦
              rw (sound, not_pointer field ne, fits)
                (terminate-WritesWithin w.memory dest n (dest + size) _ (omega arith) (ground arith)
                  (read_into-WritesWithin w.memory dest n dest size
                    (record { stream = t; memory = w.memory }) (IsBounded-as _ _ keeps h)
                    (λ x out. refl) (omega arith) (ground arith)))
        ]
      ]

  -- On every stream, whose callback gives at most the bytes that it is asked for, `pb_dec_bytes` of
  -- a field that is no pointer returns, and whether it succeeds or fails it has written only into
  -- the `data_size` bytes at `dest`, its size in front of the bytes included.
  pub pb_dec_bytes-WritesWithin :
      (field : Field) (dest : ℕ) (w : Work S)
      → pb_atype field.type ≢ AType.pointer
      → IsBounded w.stream.callback
      → WritesWithin w.memory dest field.data_size (pb_dec_bytes pb_realloc field dest w)
  unfolding pb_dec_bytes
  pb_dec_bytes-WritesWithin field dest w ne h =
      let n = field.data_size in
      length_then dest n _ w λ size t keeps. elim (Bool-cases (ltb pb_size_max size)) [
        | inl big ↦ rw big (λ x out. refl)
        | inr small ↦ elim (Bool-cases (ltb (u64 (size + 4)) size)) [
          | inl wrapped ↦ rw (small, wrapped) (λ x out. refl)
          | inr sound ↦ elim (Bool-cases (ltb n (u64 (size + 4)))) [
            | inl long ↦ rw (small, sound, not_pointer field ne, long) (λ x out. refl)
            | inr fits ↦
                rw (small, sound, not_pointer field ne, fits)
                  (read_into-WritesWithin w.memory dest n (dest + 4) size _
                    (IsBounded-as _ _ keeps h)
                    (λ x out.
                      store_outside (to_le 4 size) w.memory dest x
                        (ground (arith, length-to_le 4 size)))
                    (omega arith) (ground arith))
          ]
        ]
      ]
