-- ===== src/Pb/DecodeMessage/Static.antt =====
-- `decode_static_field` of FLChat/Pods/nanopb/pb_decode.c.
use flchat.Base.{
  ℕ, zero, suc, ◌+◌, ◌*◌, Bool, true, false, not, ◌&&◌, ltb, leb, ◌==◌, if◌then◌else◌,
}
use flchat.Base.Memory.{poke, load_word, store_word, u32, u64}
use flchat.Pb.{
  Field, pb_ltype, pb_htype, Outcome, ok, err, stuck, ◌>>=◌, ◌>>◌, array_overflow,
  invalid_field_type,
}
use flchat.Pb.Decode.{pb_make_string_substream}
use flchat.Pb.DecodeField.{Work, Filler, on_stream, reject, store_bytes, zero_bytes}
use flchat.Pb.DecodeMessage.Services.{Step, on_memory}
use flchat.Pb.DecodeMessage.Substream.{close_to}
use flchat.Pb.HType
use flchat.Pb.Istream.{Istream}
use flchat.Pb.Iter.{FieldIter, field_at}
use flchat.Pb.LType
use flchat.Pb.WireType

-- Entry `i` of an array; the product is of 32 bits.
abbrev pub entry_at : Field → ℕ → ℕ → ℕ
entry_at field start i = u64 (start + u32 (field.data_size * i))

module _ {S : Type 0} where
  -- `*(bool *)a = true`
  abbrev pub set_flag : ℕ → Filler S (Unit {0})
  set_flag a w = ok tt (record w { memory = poke w.memory a 1 })

  -- A `pb_size_t` at `a`.
  abbrev pub set_size : ℕ → ℕ → Filler S (Unit {0})
  set_size a n w = ok tt (record w { memory = store_word w.memory a 4 n })

  abbrev pub size_at : Work S → ℕ → ℕ
  size_at w a = load_word w.memory a 4

  module _ (func : Field → ℕ → Filler S (Unit {0})) where
    -- The loop over a packed array, on the substream.
    unfoldable pub static_items : ℕ → Field → FieldIter → Filler S (Unit {0})
    static_items zero field iter w = stuck
    static_items (suc fuel) field iter w =
        let size = size_at w iter.p_size in
        elim (not (w.stream.bytes_left == 0) && ltb size field.array_size) [
          | false ↦ ok tt w
          | true ↦
              (func field (entry_at field iter.p_data size)
                  >> (λ w'. set_size iter.p_size (u32 (size_at w' iter.p_size + 1)) w')
                  >> static_items fuel field iter)
                w
        ]

    -- What follows the loop: the rest of the substream must be empty.
    abbrev pub finish_static : Istream S → Bool → Filler S (Unit {0})
    finish_static parent status w =
        if not (w.stream.bytes_left == 0)
        then reject array_overflow (record w { stream = parent })
        else close_to parent status w

    abbrev pub static_finished :
        Istream S → Outcome (Work S) (Unit {0}) → Outcome (Work S) (Unit {0})
    static_finished parent (ok _ w) = finish_static parent true w
    static_finished parent (err w) = finish_static parent false w
    static_finished parent stuck = stuck

    -- Each entry takes a byte, so `bytes_left` rounds and one are enough.
    unfoldable pub decode_static_packed : Field → FieldIter → Filler S (Unit {0})
    decode_static_packed field iter = on_stream pb_make_string_substream >>= λ substream w.
        static_finished w.stream
          (static_items (suc substream.bytes_left) field iter (record w { stream = substream }))

    unfoldable pub decode_static_entry : Field → FieldIter → Filler S (Unit {0})
    decode_static_entry field iter w =
        let size = size_at w iter.p_size in
        (set_size iter.p_size (u32 (size + 1))
            >> (if leb field.array_size size
                then reject array_overflow
                else func field (entry_at field iter.p_data size)))
          w

    -- `defaults` sets the defaults of a submessage.
    unfoldable pub decode_static_field :
        (defaults : ℕ → ℕ → Step) → ℕ → FieldIter → Filler S (Unit {0})
    decode_static_field defaults wire_type iter =
        let field = field_at iter.start iter.pos in
        let htype = pb_htype field.type in
        let data_of = func field iter.p_data in
        if htype == HType.required
        then data_of
        else if htype == HType.optional
        then (if not (iter.p_size == iter.p_data) then set_flag iter.p_size >> data_of else data_of)
        else if htype == HType.repeated
        then (if wire_type == WireType.string && leb (pb_ltype field.type) LType.last_packable
            then decode_static_packed field iter
            else decode_static_entry field iter)
        else if htype == HType.oneof
        then (set_size iter.p_size field.tag
            >> (if pb_ltype field.type == LType.submessage
                then (store_bytes iter.p_data (zero_bytes field.data_size)
                    >> on_memory (defaults field.ptr iter.p_data)
                    >> data_of)
                else data_of))
        else reject invalid_field_type
