-- ===== src/Pb/DecodeMessage/Services.antt =====
-- What decoding a message uses of the application and of the C library, and the steps on the memory
-- that pb_decode.c takes for each field or extension (FLChat/Pods/nanopb).
use flchat.Base.{
  ℕ, zero, suc, ◌+◌, Bool, true, false, Option, none, some, List, length, ◌==◌, if◌then◌else◌,
}
use flchat.Base.Memory.{Memory, u64}
use flchat.Pb.{Field, pb_ltype, pb_atype, ok, stuck}
use flchat.Pb.AType
use flchat.Pb.DecodeField.{Filler}
use flchat.Pb.Iter.{FieldIter, field_at, pb_field_iter_begin, pb_field_iter_next}
use flchat.Pb.LType
use flchat.Pb.Program.{pointer_at}

-- The descriptors at an address, the application's functions, which stand at addresses, and
-- `realloc` and `free`. The function of a `pb_callback_t` takes the field and the address of `arg`,
-- and that of a `pb_extension_type_t` the address of the extension, the tag and the wire type. They
-- work on streams of every kind. `fixed_count_size` is the address of this local variable of
-- `pb_decode_noinit` in the call with that depth left.
pub record Services : Type 1 where
  pub descriptors : ℕ → List Field
  pub decode_callback : (S : Type 0) → ℕ → Field → ℕ → Filler S (Unit {0})
  pub decode_extension : (S : Type 0) → ℕ → ℕ → ℕ → ℕ → Filler S (Unit {0})
  pub pb_realloc : Memory → ℕ → ℕ → Memory × ℕ
  pub pb_free : Memory → ℕ → Memory
  pub fixed_count_size : ℕ → ℕ

-- A change of the memory; `none` is out of fuel.
abbrev pub Step : Type 0
Step = Memory → Option Memory

infixl 5 ◌>=>◌
abbrev pub ◌>=>◌ : Step → Step → Step
(f >=> g) m = elim (f m) [ none ↦ none | some m' ↦ g m' ]

abbrev pub on_memory : {S : Type 0} → Step → Filler S (Unit {0})
on_memory f w = elim (f w.memory) [ none ↦ stuck | some m ↦ ok tt (record w { memory = m }) ]

-- The loop over the fields from the iterator on.
unfoldable pub each_field : ℕ → (FieldIter → Step) → FieldIter → Step
each_field zero body iter m = none
each_field (suc fuel) body iter m =
    (body iter
        >=> (let later = pb_field_iter_next iter in
            elim later.1 [ true ↦ each_field fuel body later.0 | false ↦ some ]))
      m

-- `body` for each field of a message, if it has any.
abbrev pub each_field_of : (FieldIter → Step) → List Field → ℕ → Step
each_field_of body fields dest_struct m =
    let begun = pb_field_iter_begin fields dest_struct in
    if begun.1 then each_field (suc (length fields)) body begun.0 m else some m

-- A `pb_extension_t` has `type`, `dest` at 8, `next` at 16 and `found` at 24. In its type, `decode`
-- comes first and `arg` stands at 16.
module _ (p : Services) where
  abbrev pub extension_fields : Memory → ℕ → List Field
  extension_fields m extension = p.descriptors (pointer_at m (pointer_at m extension + 16))

  unfoldable pub iter_from_extension : Memory → ℕ → FieldIter
  iter_from_extension m extension =
      let dest = u64 (extension + 8) in
      let fields = extension_fields m extension in
      record (pb_field_iter_begin fields (pointer_at m dest)).0 {
        p_data =
            if pb_atype (field_at fields 0).type == AType.pointer then dest else pointer_at m dest;
        p_size = u64 (extension + 24);
      }

-- The loop of `find_extension_field`, up to the position `start`; `none` is out of fuel.
unfoldable pub find_extension_loop : ℕ → ℕ → FieldIter → Option (FieldIter × Bool)
find_extension_loop zero start iter = none
find_extension_loop (suc fuel) start iter =
    elim (pb_ltype (field_at iter.start iter.pos).type == LType.extension) [
      | true ↦ some (iter, true)
      | false ↦
          let iter' = (pb_field_iter_next iter).0 in
          elim (iter'.pos == start) [
            | true ↦ some (iter', false)
            | false ↦ find_extension_loop fuel start iter'
          ]
    ]

unfoldable pub find_extension_field : FieldIter → Option (FieldIter × Bool)
find_extension_field iter = find_extension_loop (suc (length iter.start)) iter.pos iter
