-- ===== src/Pb/FieldTests.antt =====
-- Runs of the iterator and of the field encoders and decoders, and the theorems at concrete inputs.
use flchat.Base.{
  ℕ, zero, suc, ◌-◌, ◌<◌, ◌≡◌, refl, arith, true, false, none, some, Option, List, [], ◌∷◌, get_or,
  length,
}
use flchat.Base.Memory.{store_word, Memory}
use flchat.Pb.{Field, ok}
use flchat.Pb.Decode.Reads.{reading}
use flchat.Pb.DecodeField.{Work, pb_dec_string}
use flchat.Pb.DecodeField.{allocate_field, reject}
use flchat.Pb.{invalid_size, size_too_large, realloc_failed}
use flchat.Base.{◌*◌, ◌^◌, ◌||◌, leb, ◌==◌, if◌then◌else◌}
use flchat.Pb.DecodeField.Allocate.{allocate_field-exact}
use flchat.Pb.DecodeField.Callback.{IsBounded}
use flchat.Pb.DecodeField.Inside.{WritesWithin}
use flchat.Pb.DecodeField.Static.{pb_dec_string-WritesWithin}
use flchat.Pb.EncodeField.{pb_enc_string}
use flchat.Pb.Iter.{
  FieldIter, pb_field_iter_begin, pb_field_iter_next, pb_field_iter_find, find_loop,
}
use flchat.Pb.Iter.Find.{Searched, pb_field_iter_find-Searched}
use flchat.Pb.Ostream.{Ostream, Cursor, pb_ostream_from_buffer}
use flchat.Pb.RoundTrip.{reopened}
use flchat.Pb.RoundTrip.Strings.{with_text, text_round_trip}

-- A required integer and an optional string of 8 bytes behind it.
abbrev id : Field
id = record {
  tag = 1;
  type = 0x00;
  data_offset = 0;
  size_offset = 0;
  data_size = 4;
  array_size = 0;
  ptr = 0;
}

abbrev name : Field
name = record {
  tag = 2;
  type = 0x16;
  data_offset = 1;
  size_offset = 0;
  data_size = 8;
  array_size = 0;
  ptr = 0;
}

abbrev fields : List Field
fields = id ∷ name ∷ []

abbrev begun : FieldIter
begun = record {
  start = fields;
  pos = 0;
  required_field_index = 0;
  dest_struct = 1000;
  p_data = 1000;
  p_size = 1000;
}

abbrev at_name : FieldIter
at_name = record {
  start = fields;
  pos = 1;
  required_field_index = 1;
  dest_struct = 1000;
  p_data = 1005;
  p_size = 1005;
}

begin_run : pb_field_iter_begin fields 1000 ≡ (begun, true)
unfolding pb_field_iter_begin
begin_run = refl

next_run : pb_field_iter_next begun ≡ (at_name, true)
unfolding pb_field_iter_next
next_run = refl

find_run : pb_field_iter_find begun 2 ≡ some (at_name, true)
unfolding pb_field_iter_find find_loop pb_field_iter_next
find_run = refl

pb_field_iter_find-Searched_example : Searched fields 2 (pb_field_iter_find begun 2)
pb_field_iter_find-Searched_example =
    pb_field_iter_find-Searched 2 begun (omega arith, (omega arith, tt)) (omega arith)

-- An allocator without memory.
abbrev no_memory : Memory → ℕ → ℕ → Memory × ℕ
no_memory m p n = (m, 0)

abbrev zeros : Memory
zeros = λ x. 0

-- The letters h and i at 500.
abbrev letters : Memory
letters = λ x. get_or (b'h' ∷ b'i' ∷ []) (x - 500) 0

-- A callback that gives as many bytes 3 as it is asked for.
abbrev threes : ℕ → List ℕ
threes zero = []
threes (suc n) = 3 ∷ threes n

length-threes : (n : ℕ) → length (threes n) ≡ n
length-threes zero = refl
length-threes (suc n) = omega (arith, length-threes n)

abbrev endless : ℕ → ℕ → ℕ × Option (List ℕ)
endless state count = (state, some (threes count))

pub endless-IsBounded : IsBounded endless
endless-IsBounded state state' count bytes h = ground (arith, length-threes count)

abbrev pub work : Work ℕ
work = record {
  stream = record {
    callback = endless;
    from_buffer = false;
    state = 0;
    bytes_left = 9;
    errmsg = none;
  };
  memory = zeros;
}

pb_dec_string-WritesWithin_example :
    WritesWithin zeros 700 8 (pb_dec_string no_memory name 700 work)
pb_dec_string-WritesWithin_example =
    pb_dec_string-WritesWithin no_memory name 700 work (omega arith) endless-IsBounded

abbrev tail : List ℕ
tail = 9 ∷ 8 ∷ []

abbrev hi : List ℕ
hi = b'h' ∷ b'i' ∷ []

text_round_trip_example :
    (s : Ostream Cursor) × (pb_enc_string letters name 500 (pb_ostream_from_buffer zeros 64 16)
      ≡ ok tt s)
    × (pb_dec_string no_memory name 700 (record { stream = reopened 64 s tail 2; memory = zeros })
        ≡ ok tt (record { stream = reading tail 2 none; memory = with_text zeros 700 hi }))
text_round_trip_example =
    text_round_trip no_memory letters zeros zeros name 500 700 64 16 hi tail 2 (omega arith)
      (refl, omega arith, (refl, omega arith, refl)) (omega arith) (omega arith) (omega arith)
      (omega arith) (omega arith)

-- The four bytes 0xFE: the number -16843010.
abbrev negative : Memory
negative = λ x. 0xfe

negative_bytes : (x : ℕ) → negative x < 256
negative_bytes x = omega arith

-- Memory of which `realloc` gives the place 4096.
abbrev some_memory : Memory → ℕ → ℕ → Memory × ℕ
some_memory m old size = (m, 4096)

allocate_field-exact_example : allocate_field some_memory 700 8 3 work ≡ (
    if (8 == 0) || (3 == 0)
    then reject invalid_size work
    else if leb (2 ^ 64) (8 * 3)
    then reject size_too_large work
    else if 4096 == 0
    then reject realloc_failed work
    else ok tt (record work { memory = store_word zeros 700 8 4096 }))
allocate_field-exact_example = allocate_field-exact some_memory 700 8 3 work
