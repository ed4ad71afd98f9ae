-- ===== src/Pb/DecodeField.antt =====
-- The field decoders of FLChat/Pods/nanopb/pb_decode.c, `pb_dec_varint` to
-- `pb_dec_fixed_length_bytes`, and `allocate_field`. They write into a memory, at the address
-- `dest`. A callback that fails has written nothing to the memory.
pub mod Callback
pub mod Inside
pub mod Static
pub mod Allocate
use flchat.Base.{
  ℕ, zero, suc, ◌+◌, ◌-◌, ◌*◌, ◌/◌, ◌^◌, Bool, true, false, not, ◌&&◌, ◌||◌, Option, none, some,
  List, [], ◌∷◌, ltb, leb, ◌==◌, if◌then◌else◌,
}
use flchat.Base.Memory.{Memory, poke, store, load_word, store_word, sign_extend, u32, u64, u16, u8}
use flchat.Pb.{
  Field, Error, set_error, pb_atype, pb_size_max, Outcome, ok, err, stuck, ◌>>=◌, ◌>>◌, return,
}
use flchat.Pb.{
  invalid_data_size, integer_too_large, bytes_overflow, size_too_large, string_overflow,
  incorrect_fixed_length_bytes_size, invalid_size, realloc_failed,
}
use flchat.Pb.AType
use flchat.Pb.Decode.{
  pb_decode_varint, pb_decode_varint32, pb_decode_svarint, pb_decode_fixed32, pb_decode_fixed64,
}
use flchat.Pb.Istream.{Istream, Decoder, pb_read}

-- The stream, and the memory with the structure that is filled.
pub record Work (S : Type 0) : Type 0 where
  pub stream : Istream S
  pub memory : Memory

abbrev pub Filler : Type 0 → Type 0 → Type 0
Filler S A = Work S → Outcome (Work S) A

-- A signed value of 64 bits, cast to `data_size` bytes and back; `none` for another size.
abbrev pub clamped_signed : ℕ → ℕ → Option ℕ
clamped_signed data_size value =
    if data_size == 8
    then some value
    else if data_size == 4
    then some (sign_extend 32 (u32 value))
    else if data_size == 2
    then some (sign_extend 16 (u16 value))
    else if data_size == 1
    then some (sign_extend 8 (u8 value))
    else none

abbrev pub clamped_unsigned : ℕ → ℕ → Option ℕ
clamped_unsigned data_size value =
    if data_size == 8
    then some value
    else if data_size == 4
    then some (u32 value)
    else if data_size == 2
    then some (u16 value)
    else if data_size == 1
    then some (u8 value)
    else none

-- `memset(dest, 0, n)`
unfoldable pub zero_bytes : ℕ → List ℕ
zero_bytes zero = []
zero_bytes (suc n) = 0 ∷ zero_bytes n

module _ {S : Type 0} where
  -- A decoder of the stream alone.
  abbrev pub on_stream : {A : Type 0} → Decoder S A → Filler S A
  on_stream f w = elim (f w.stream) [
    | ok a s ↦ ok a (record w { stream = s })
    | err s ↦ err (record w { stream = s })
    | stuck ↦ stuck
  ]

  -- PB_RETURN_ERROR
  abbrev pub reject : {A : Type 0} → Error → Filler S A
  reject e w = err (record w { stream = record w.stream { errmsg = set_error w.stream.errmsg e } })

  abbrev pub store_bytes : ℕ → List ℕ → Filler S (Unit {0})
  store_bytes dest bytes w = ok tt (record w { memory = store w.memory dest bytes })

  -- `*(intN_t *)dest = (intN_t)value` for a size that is known, and the test for an overflow, after
  -- the store.
  abbrev pub store_checked : Field → ℕ → Option ℕ → ℕ → Filler S (Unit {0})
  store_checked field dest none value w = reject invalid_data_size w
  store_checked field dest (some clamped) value w =
      let w' : Work S = record w { memory = store_word w.memory dest field.data_size value } in
      if clamped == value then ok tt w' else reject integer_too_large w'

  unfoldable pub pb_dec_varint : Field → ℕ → Filler S (Unit {0})
  pb_dec_varint field dest = on_stream pb_decode_varint >>= λ value.
      let svalue = if field.data_size == 8 then value else sign_extend 32 (u32 value) in
      store_checked field dest (clamped_signed field.data_size svalue) svalue

  unfoldable pub pb_dec_uvarint : Field → ℕ → Filler S (Unit {0})
  pb_dec_uvarint field dest = on_stream pb_decode_varint >>= λ value.
      store_checked field dest (clamped_unsigned field.data_size value) value

  unfoldable pub pb_dec_svarint : Field → ℕ → Filler S (Unit {0})
  pb_dec_svarint field dest = on_stream pb_decode_svarint >>= λ value.
      store_checked field dest (clamped_signed field.data_size value) value

  unfoldable pub pb_dec_fixed32 : Field → ℕ → Filler S (Unit {0})
  pb_dec_fixed32 field dest w =
      (on_stream pb_decode_fixed32 >>= λ value w'.
      ok tt (record w' { memory = store_word w'.memory dest 4 value }))
        w

  unfoldable pub pb_dec_fixed64 : Field → ℕ → Filler S (Unit {0})
  pb_dec_fixed64 field dest w =
      (on_stream pb_decode_fixed64 >>= λ value w'.
      ok tt (record w' { memory = store_word w'.memory dest 8 value }))
        w

  -- `pb_read` into the memory.
  abbrev pub read_into : ℕ → ℕ → Filler S (Unit {0})
  read_into dest count = on_stream (pb_read count) >>= store_bytes dest

  -- The end of `pb_dec_string`: the 0 is stored whether the read succeeds or not.
  abbrev pub terminate : ℕ → Outcome (Work S) (Unit {0}) → Outcome (Work S) (Unit {0})
  terminate end (ok _ w) = ok tt (record w { memory = poke w.memory end 0 })
  terminate end (err w) = err (record w { memory = poke w.memory end 0 })
  terminate end stuck = stuck

  unfoldable pub pb_dec_fixed_length_bytes : Field → ℕ → Filler S (Unit {0})
  pb_dec_fixed_length_bytes field dest = on_stream pb_decode_varint32 >>= λ size.
      if ltb pb_size_max size
      then reject bytes_overflow
      else if size == 0
      then store_bytes dest (zero_bytes field.data_size)
      else if not (size == field.data_size)
      then reject incorrect_fixed_length_bytes_size
      else read_into dest field.data_size

  -- `pb_realloc` is the C library's: from the memory, the old pointer and a size to the new memory
  -- and the new pointer, 0 for a failure.
  module _ (pb_realloc : Memory → ℕ → ℕ → Memory × ℕ) where
    -- What `allocate_field` makes of the new pointer.
    abbrev pub allocated : ℕ → Memory × ℕ → Filler S (Unit {0})
    allocated p_data (m, p) w =
        let w' : Work S = record w { memory = m } in
        if p == 0
        then reject realloc_failed w'
        else ok tt (record w { memory = store_word m p_data 8 p })

    unfoldable pub allocate_field : ℕ → ℕ → ℕ → Filler S (Unit {0})
    allocate_field p_data data_size array_size w =
        let check_limit = 2 ^ 32 in
        if data_size == 0 || array_size == 0
        then reject invalid_size w
        else if (leb check_limit data_size || leb check_limit array_size)
            && ltb ((2 ^ 64 - 1) / array_size) data_size
        then reject size_too_large w
        else allocated p_data
            (pb_realloc w.memory (load_word w.memory p_data 8) (u64 (array_size * data_size))) w

    -- Where the data of a bytes or string field goes: a new allocation of `alloc_size` bytes, or
    -- the structure, if it has the room.
    abbrev pub data_place : Error → Field → ℕ → ℕ → Filler S ℕ
    data_place overflow field alloc_size dest =
        if pb_atype field.type == AType.pointer
        then (allocate_field dest alloc_size 1 >>= λ _ w. ok (load_word w.memory dest 8) w)
        else if ltb field.data_size alloc_size
        then reject overflow
        else return dest

    unfoldable pub pb_dec_bytes : Field → ℕ → Filler S (Unit {0})
    pb_dec_bytes field dest = on_stream pb_decode_varint32 >>= λ size.
        let alloc_size = u64 (size + 4) in
        if ltb pb_size_max size
        then reject bytes_overflow
        else if ltb alloc_size size
        then reject size_too_large
        else data_place bytes_overflow field alloc_size dest >>= λ bdest w.
            read_into (bdest + 4) size (record w { memory = store_word w.memory bdest 4 size })

    -- `size + 1` is of 32 bits.
    unfoldable pub pb_dec_string : Field → ℕ → Filler S (Unit {0})
    pb_dec_string field dest = on_stream pb_decode_varint32 >>= λ size.
        let alloc_size = u32 (size + 1) in
        if ltb alloc_size size
        then reject size_too_large
        else data_place string_overflow field alloc_size dest >>= λ place w.
            terminate (place + size) (read_into place size w)
