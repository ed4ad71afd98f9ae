-- ===== src/Pb/Decode.antt =====
-- Reading the wire format: the helper functions of FLChat/Pods/nanopb/pb_decode.c, from
-- `pb_decode_varint32_eof` to `pb_close_string_substream`, and the scalar decoders
-- `pb_decode_svarint`, `pb_decode_fixed32` and `pb_decode_fixed64`.
pub mod Reads
pub mod Varint
pub mod Varint32
pub mod Varint32Signed
pub mod Bounds
pub mod FieldBounds
pub mod Substream
pub mod Skip
pub mod Scalars
use flchat.Base.{
  ℕ, zero, suc, ◌+◌, ◌-◌, ◌*◌, ◌/◌, ◌%◌, ◌^◌, bit_and, bit_or, Bool, true, false, not, ◌&&◌, ◌||◌,
  Option, none, some, List, ◌++◌, get_or, ltb, leb, ◌==◌, if◌then◌else◌,
}
use flchat.Base.Memory.{u32, u64, not64}
use flchat.Pb.{Outcome, ok, err, stuck, ◌>>=◌, return}
use flchat.Pb.{varint_overflow, invalid_wire_type, parent_stream_too_short}
use flchat.Pb.WireType
use flchat.Pb.Istream.{Istream, Decoder, fail, pb_read, pb_read_null, pb_readbyte}

-- The body of the loop of `pb_decode_varint32_eof` without its read: the new `result`, or `none`
-- for an overflow.
abbrev pub varint32_round : ℕ → ℕ → ℕ → Option ℕ
varint32_round bitpos result byte =
    let sign_extension = if ltb bitpos 63 then 0xff else 0x01 in
    if leb 32 bitpos
    then if not (bit_and byte 0x7f == 0) && (result / 2 ^ 31 == 0 || not (byte == sign_extension))
      then none
      else some result
    else some (bit_or result (u32 (bit_and byte 0x7f * 2 ^ bitpos)))

module _ {S : Type 0} where
  -- The loop from its second byte on. `bitpos` is a `uint_fast8_t`, of 8 bits.
  unfoldable pub varint32_loop : ℕ → ℕ → ℕ → Decoder S ℕ
  varint32_loop zero bitpos result s = stuck
  varint32_loop (suc fuel) bitpos result s =
      (pb_readbyte >>= λ byte. elim (varint32_round bitpos result byte) [
        | none ↦ fail varint_overflow
        | some result' ↦
            let bitpos' = (bitpos + 7) % 256 in
            elim (bit_and byte 0x80 == 0) [
              | true ↦
                  if bitpos' == 35 && not (bit_and byte 0x70 == 0)
                  then fail varint_overflow
                  else return result'
              | false ↦ varint32_loop fuel bitpos' result'
            ]
      ])
        s

  -- What follows the first byte. Each round takes a byte, so `bytes_left` rounds and one are enough.
  unfoldable pub varint32_after : ℕ → Decoder S ℕ
  varint32_after byte s =
      if bit_and byte 0x80 == 0
      then return byte s
      else varint32_loop (suc s.bytes_left) 7 (bit_and byte 0x7f) s

  -- With the result comes whether `*eof` has been set.
  unfoldable pub pb_decode_varint32_eof : Istream S → Outcome (Istream S) ℕ × Bool
  pb_decode_varint32_eof s = elim (pb_readbyte s) [
    | ok byte s' ↦ (varint32_after byte s', false)
    | err s' ↦ (err s', s'.bytes_left == 0)
    | stuck ↦ (stuck, false)
  ]

  unfoldable pub pb_decode_varint32 : Decoder S ℕ
  pb_decode_varint32 s = (pb_decode_varint32_eof s).0

  -- The loop of `pb_decode_varint`; `bitpos` reaches 70 at the eleventh round.
  unfoldable pub varint_loop : ℕ → ℕ → ℕ → Decoder S ℕ
  varint_loop zero bitpos result s = stuck
  varint_loop (suc fuel) bitpos result s = elim (leb 64 bitpos) [
    | true ↦ fail varint_overflow s
    | false ↦
        (pb_readbyte >>= λ byte.
        let result' = bit_or result (u64 (bit_and byte 0x7f * 2 ^ bitpos)) in
        elim (bit_and byte 0x80 == 0) [
          | true ↦ return result'
          | false ↦ varint_loop fuel ((bitpos + 7) % 256) result'
        ])
          s
  ]

  unfoldable pub pb_decode_varint : Decoder S ℕ
  pb_decode_varint = varint_loop 11 0 0

  unfoldable pub skip_varint_loop : ℕ → Decoder S (Unit {0})
  skip_varint_loop zero s = stuck
  skip_varint_loop (suc fuel) s =
      (pb_read 1 >>= λ bytes. elim (bit_and (get_or bytes 0 0) 0x80 == 0) [
        | true ↦ return tt
        | false ↦ skip_varint_loop fuel
      ])
        s

  unfoldable pub pb_skip_varint : Decoder S (Unit {0})
  pb_skip_varint s = skip_varint_loop (suc s.bytes_left) s

  unfoldable pub pb_skip_string : Decoder S (Unit {0})
  pb_skip_string = do length ← pb_decode_varint32; pb_read_null length

  -- `pb_decode_tag` after its read. A zero ends a message.
  abbrev split_tag : Outcome (Istream S) ℕ × Bool → Outcome (Istream S) (ℕ × ℕ) × Bool
  split_tag (ok temp s, eof) =
      if temp == 0 then (err s, true) else (ok (temp / 2 ^ 3, bit_and temp 7) s, eof)
  split_tag (err s, eof) = (err s, eof)
  split_tag (stuck, eof) = (stuck, eof)

  -- The results are the field number and the wire type, and with them `*eof`.
  unfoldable pub pb_decode_tag : Istream S → Outcome (Istream S) (ℕ × ℕ) × Bool
  pb_decode_tag s = split_tag (pb_decode_varint32_eof s)

  unfoldable pub pb_skip_field : ℕ → Decoder S (Unit {0})
  pb_skip_field wire_type =
      if wire_type == WireType.varint
      then pb_skip_varint
      else if wire_type == WireType.bit64
      then pb_read_null 8
      else if wire_type == WireType.string
      then pb_skip_string
      else if wire_type == WireType.bit32
      then pb_read_null 4
      else fail invalid_wire_type

  -- The varint case of `read_raw_value`, with the bytes of `buf` that may still be written.
  unfoldable pub raw_varint : ℕ → Decoder S (List ℕ)
  raw_varint zero s = err s
  raw_varint (suc left) s =
      (pb_read 1 >>= λ bytes. elim (bit_and (get_or bytes 0 0) 0x80 == 0) [
        | true ↦ return bytes
        | false ↦ raw_varint left >>= λ rest. return (bytes ++ rest)
      ])
        s

  -- The bytes that are put into `buf`; their number is the final `*size`.
  unfoldable pub read_raw_value : ℕ → ℕ → Decoder S (List ℕ)
  read_raw_value wire_type max_size =
      if wire_type == WireType.varint
      then raw_varint max_size
      else if wire_type == WireType.bit64
      then pb_read 8
      else if wire_type == WireType.bit32
      then pb_read 4
      else fail invalid_wire_type

  unfoldable pub pb_make_string_substream : Decoder S (Istream S)
  pb_make_string_substream = do
    size ← pb_decode_varint32
    λ s.
        if ltb s.bytes_left size
        then fail parent_stream_too_short s
        else ok (record s { bytes_left = size }) (record s { bytes_left = s.bytes_left - size })

  -- The end of `pb_close_string_substream`, given the outcome of skipping what the substream holds.
  abbrev closed : Outcome (Istream S) (Unit {0}) → Decoder S (Unit {0})
  closed (ok _ substream) s =
      ok tt (record s { state = substream.state; errmsg = substream.errmsg })
  closed (err _) s = err s
  closed stuck s = stuck

  unfoldable pub pb_close_string_substream : Istream S → Decoder S (Unit {0})
  pb_close_string_substream substream s =
      if substream.bytes_left == 0
      then closed (ok tt substream) s
      else closed (pb_read_null substream.bytes_left substream) s

  -- The result is an `int64_t`, as its pattern.
  unfoldable pub pb_decode_svarint : Decoder S ℕ
  pb_decode_svarint = do
    value ← pb_decode_varint
    if bit_and value 1 == 0 then return (value / 2) else return (not64 (value / 2))

  -- The number that is stored into `*(uint32_t *)dest`.
  unfoldable pub pb_decode_fixed32 : Decoder S ℕ
  pb_decode_fixed32 = do
    bytes ← pb_read 4
    let byte = λ (i : ℕ). get_or bytes i 0
    return (
        bit_or (bit_or (bit_or (byte 0 * 2 ^ 0) (byte 1 * 2 ^ 8)) (byte 2 * 2 ^ 16))
          (byte 3 * 2 ^ 24))

  unfoldable pub pb_decode_fixed64 : Decoder S ℕ
  pb_decode_fixed64 = do
    bytes ← pb_read 8
    let byte = λ (i : ℕ). get_or bytes i 0
    let low =
        bit_or (bit_or (bit_or (byte 0 * 2 ^ 0) (byte 1 * 2 ^ 8)) (byte 2 * 2 ^ 16))
          (byte 3 * 2 ^ 24)
    let high = bit_or (bit_or (bit_or low (byte 4 * 2 ^ 32)) (byte 5 * 2 ^ 40)) (byte 6 * 2 ^ 48)
    return (bit_or high (byte 7 * 2 ^ 56))
