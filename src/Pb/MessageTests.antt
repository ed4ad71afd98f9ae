-- ===== src/Pb/MessageTests.antt =====
-- Messages that are encoded and decoded, and the theorems at concrete inputs.
use flchat.Base.{
  ℕ, ◌-◌, ◌^◌, ◌<◌, ◌≡◌, ◌≢◌, refl, arith, none, some, List, [], ◌∷◌, ◌++◌, ◌==◌, if◌then◌else◌,
}
use flchat.Base.Memory.{Memory, store, load, from_le}
use flchat.Pb.{Field, stuck, ok}
use flchat.Pb.Decode.Substream.{delimited}
use flchat.Pb.Encode.Writes.{buffered, counting, pb_write-Writes}
use flchat.Pb.EncodeMessage.{
  pb_encode, pb_encode_delimited, pb_encode_nullterminated, pb_get_encoded_size,
}
use flchat.Pb.Format.{
  message_bytes, bytes_from, field_bytes_at, field_bytes, present_bytes, value_bytes, array_bytes,
  items_bytes,
}
use flchat.Pb.Iter.Place.{place, required_before}
use flchat.Pb.Encode.Shape.{base128}
use flchat.Pb.Encode.Scalars.{wire_type_of}
use flchat.Pb.Format.Message.{IsMessage}
use flchat.Pb.Format.Streams.{
  pb_encode-format, pb_get_encoded_size-format, pb_encode-overflow, pb_encode_delimited-format,
  pb_encode_nullterminated-format,
}
use flchat.Pb.DecodeMessage.Area.{WritesInto, decode_static_field-WritesInto}
use flchat.Pb.DecodeMessage.Fields.{pb_decoder}
use flchat.Pb.DecodeMessage.Static.{decode_static_field}
use flchat.Pb.FieldTests.{work, endless-IsBounded}
use flchat.Pb.Iter.{FieldIter}
use flchat.Pb.DecodeMessage.Messages.{pb_decode_noinit}
use flchat.Pb.DecodeMessage.Services.{Services}
use flchat.Pb.DecodeMessage.Unknown.{Unknowns, nothing, field}
use flchat.Pb.DecodeMessage.Unread.{over, pb_decode_noinit-unread}
use flchat.Pb.Decode.Substream.{varint, string}
use flchat.Pb.Ostream.{Cursor, pb_write, pb_ostream_from_buffer}
use flchat.Pb.Program.{Program}

-- A required integer of 4 bytes.
abbrev number : Field
number = record {
  tag = 1;
  type = 0x01;
  data_offset = 0;
  size_offset = 0;
  data_size = 4;
  array_size = 0;
  ptr = 0;
}

-- Up to three integers of one byte behind their number, which has four bytes.
abbrev numbers : Field
numbers = record {
  tag = 2;
  type = 0x21;
  data_offset = 4;
  size_offset = 2 ^ 64 - 4;
  data_size = 1;
  array_size = 3;
  ptr = 0;
}

-- A pointer to a message with one `number`.
abbrev inner : Field
inner = record {
  tag = 3;
  type = 0x97;
  data_offset = 1;
  size_offset = 0;
  data_size = 4;
  array_size = 0;
  ptr = 40;
}

-- A callback.
abbrev called : Field
called = record {
  tag = 4;
  type = 0x56;
  data_offset = 0;
  size_offset = 0;
  data_size = 16;
  array_size = 0;
  ptr = 0;
}

abbrev whole : List Field
whole = number ∷ numbers ∷ inner ∷ called ∷ []

abbrev test_descriptors : ℕ → List Field
test_descriptors a = if a == 40 then number ∷ [] else []

-- The structure stands at 100, with two entries in `numbers` and its `inner` at 60.
abbrev filled : Memory
filled x =
    if x == 60
    then 9
    else if x == 100
    then 44
    else if x == 101
    then 1
    else if x == 104
    then 2
    else if x == 108
    then 5
    else if x == 109
    then 200
    else if x == 112
    then 60
    else if x == 120
    then 7
    else 0

filled-lt : (x : ℕ) → filled x < 256
filled-lt x = ground arith

abbrev nowhere : Cursor
nowhere = record { memory = λ x. 0; dest = 0 }

-- Each callback writes the integer 1 under the number 4.
abbrev one : List ℕ
one = 0x20 ∷ 1 ∷ []

abbrev writer : Program Cursor
writer = record {
  descriptors = test_descriptors;
  null = nowhere;
  encode_callback = λ encode field arg. pb_write one 2;
  encode_extension = λ encode extension. pb_write one 2;
}

messages-IsMessage : (a : ℕ) → IsMessage (test_descriptors a)
messages-IsMessage a = ground arith

abbrev expected : List ℕ
expected = 0x08 ∷ 0xac ∷ 0x02 ∷ 0x12 ∷ 3 ∷ 5 ∷ 200 ∷ 1 ∷ 0x1a ∷ 2 ∷ 0x08 ∷ 9 ∷ one

whole_format : message_bytes writer filled (λ e f a. one) (λ e x. one) 3 1 whole 100 ≡ some expected
unfolding message_bytes bytes_from field_bytes_at field_bytes present_bytes place value_bytes
    array_bytes from_le load items_bytes base128 wire_type_of
whole_format = refl

pb_encode-format_example :
    pb_encode writer filled 3 1 whole 100 (pb_ostream_from_buffer filled 500 20)
    ≡ ok tt (buffered (store filled 500 expected) 514 20 14 none)
pb_encode-format_example =
    pb_encode-format writer filled (λ e f a. one) (λ e x. one) filled-lt messages-IsMessage
      (λ e f a. pb_write-Writes one) (λ e x. pb_write-Writes one) 3 1 whole 100 expected
      (ground arith) whole_format (omega arith) filled 500 20 (omega arith) (omega arith)

pb_get_encoded_size-format_example :
    pb_get_encoded_size writer filled 3 1 whole 100 ≡ ok 14 (counting nowhere 14)
pb_get_encoded_size-format_example =
    pb_get_encoded_size-format writer filled (λ e f a. one) (λ e x. one) filled-lt
      messages-IsMessage (λ e f a. pb_write-Writes one) (λ e x. pb_write-Writes one) 3 1 whole 100
      expected (ground arith) whole_format (omega arith)

pb_encode_delimited-format_example :
    pb_encode_delimited writer filled 3 1 whole 100 (pb_ostream_from_buffer filled 500 20)
    ≡ ok tt (buffered (store filled 500 (delimited expected)) 515 20 15 none)
unfolding base128
pb_encode_delimited-format_example =
    pb_encode_delimited-format writer filled (λ e f a. one) (λ e x. one) filled-lt
      messages-IsMessage (λ e f a. pb_write-Writes one) (λ e x. pb_write-Writes one) 3 1 whole 100
      expected (ground arith) whole_format (omega arith) filled 500 20 (omega arith) (omega arith)

pb_encode_nullterminated-format_example :
    pb_encode_nullterminated writer filled 3 1 whole 100 (pb_ostream_from_buffer filled 500 20)
    ≡ ok tt (buffered (store filled 500 (expected ++ 0 ∷ [])) 515 20 15 none)
pb_encode_nullterminated-format_example =
    pb_encode_nullterminated-format writer filled (λ e f a. one) (λ e x. one) filled-lt
      messages-IsMessage (λ e f a. pb_write-Writes one) (λ e x. pb_write-Writes one) 3 1 whole 100
      expected (ground arith) whole_format (omega arith) filled 500 20 (omega arith) (omega arith)

-- Functions that are not called here.
abbrev services : Services
services = record {
  descriptors = test_descriptors;
  decode_callback = λ S decode field arg w. ok tt w;
  decode_extension = λ S decode extension tag wire_type w. ok tt w;
  pb_realloc = λ m ptr size. (m, 0);
  pb_free = λ m ptr. m;
  fixed_count_size = λ depth. 900;
}

-- The message without its required field.
abbrev optional_part : List Field
optional_part = numbers ∷ inner ∷ called ∷ []

-- Two unknown fields: the number 300 under 9, and two bytes under 10.
unknowns : Unknowns optional_part (0x48 ∷ 0xac ∷ 0x02 ∷ 0x52 ∷ 2 ∷ 7 ∷ 8 ∷ [])
unfolding base128
unknowns =
    field 9 0 (0xac ∷ 0x02 ∷ []) (0x52 ∷ 2 ∷ 7 ∷ 8 ∷ []) (omega arith) (omega arith)
      (λ i h. ground arith) (varint 300 (omega arith))
      (field 10 2 (2 ∷ 7 ∷ 8 ∷ []) [] (omega arith) (omega arith) (λ i h. ground arith)
        (string (7 ∷ 8 ∷ []) (omega arith)) nothing)

pb_decode_noinit-unread_example :
    pb_decode_noinit services 1 1 optional_part 100
      (over (0x48 ∷ 0xac ∷ 0x02 ∷ 0x52 ∷ 2 ∷ 7 ∷ 8 ∷ []) none filled)
    ≡ ok tt (over [] none filled)
unfolding required_before
pb_decode_noinit-unread_example =
    pb_decode_noinit-unread services 1 0 optional_part 100
      (0x48 ∷ 0xac ∷ 0x02 ∷ 0x52 ∷ 2 ∷ 7 ∷ 8 ∷ []) filled (ground arith) (omega arith)
      (λ i h. ground arith) unknowns

-- Up to three strings of 8 bytes behind their number.
abbrev names : Field
names = record {
  tag = 5;
  type = 0x26;
  data_offset = 4;
  size_offset = 2 ^ 64 - 4;
  data_size = 8;
  array_size = 3;
  ptr = 0;
}

-- The iterator at `names`, with the number at 696.
abbrev at_names : FieldIter
at_names = record {
  start = names ∷ [];
  pos = 0;
  required_field_index = 0;
  dest_struct = 696;
  p_data = 700;
  p_size = 696;
}

decode_static_field-WritesInto_example :
    WritesInto
      (λ x. 0)
      700
      24
      696
      4
      (decode_static_field
        (pb_decoder services 1 1 (λ fields dest w. stuck) (λ fields dest w. stuck))
        (λ a b m. none)
        2
        at_names
        work)
decode_static_field-WritesInto_example =
    decode_static_field-WritesInto services 1 1 (λ fields dest w. stuck) (λ fields dest w. stuck)
      (λ a b m. none) 2 at_names work (ground arith) endless-IsBounded (omega arith, omega arith)

pb_encode-overflow_example :
    pb_encode writer filled 3 1 whole 100 (pb_ostream_from_buffer filled 500 13)
    ≢ ok tt (buffered filled 513 13 13 none)
pb_encode-overflow_example =
    pb_encode-overflow writer filled (λ e f a. one) (λ e x. one) filled-lt messages-IsMessage
      (λ e f a. pb_write-Writes one) (λ e x. pb_write-Writes one) 3 1 whole 100 expected
      (ground arith) whole_format (omega arith) filled 500 13 (omega arith) (omega arith)
      (buffered filled 513 13 13 none)
