-- ===== src/Pb/Tests.antt =====
-- Runs of the model of nanopb, and the theorems at concrete inputs.
use flchat.Base.{ℕ, ◌+◌, ◌≡◌, refl, arith, none, List, [], ◌∷◌, ◌++◌, length}
use flchat.Base.Memory.{Memory}
use flchat.Pb.{ok}
use flchat.Pb.Decode.{pb_decode_varint, pb_decode_varint32, pb_decode_svarint, pb_skip_field}
use flchat.Pb.Decode.Bounds.{LeavesAtMost}
use flchat.Pb.Decode.FieldBounds.{pb_skip_field_bound}
use flchat.Pb.Decode.Reads.{reading}
use flchat.Pb.Decode.Substream.{delimited, Payload, pb_skip_field-Reads}
use flchat.Pb.Decode.Varint32Signed.{padded, pb_decode_varint32-padded-Reads}
use flchat.Pb.Encode.{pb_encode_varint, pb_encode_svarint}
use flchat.Pb.Encode.Confined.{IsInside, inside_at}
use flchat.Pb.Istream.{Istream}
use flchat.Pb.RoundTrip.{RoundTrips, varint_round_trip, svarint_round_trip}

abbrev zeros : Memory
zeros = λ x. 0

abbrev hello : List ℕ
hello = b'h' ∷ b'e' ∷ b'l' ∷ b'l' ∷ b'o' ∷ []

abbrev abc : List ℕ
abc = b'a' ∷ b'b' ∷ b'c' ∷ []

abbrev tail : List ℕ
tail = 9 ∷ 8 ∷ []

varint_round_trip_example :
    RoundTrips (pb_encode_varint 300) pb_decode_varint 300 zeros 64 16 tail 2
varint_round_trip_example =
    varint_round_trip zeros 64 16 tail 2 (omega arith) 300 (omega arith) (omega arith)

svarint_round_trip_example :
    RoundTrips
      (pb_encode_svarint 18446744073709551614)
      pb_decode_svarint
      18446744073709551614
      zeros
      64
      16
      tail
      2
svarint_round_trip_example =
    svarint_round_trip zeros 64 16 tail 2 (omega arith) 18446744073709551614 (omega arith)
      (omega arith)

pb_skip_field-Reads_example :
    pb_skip_field 2 (reading (delimited abc ++ tail) (length (delimited abc) + 2) none)
    ≡ ok tt (reading tail 2 none)
pb_skip_field-Reads_example =
    pb_skip_field-Reads 2 (delimited abc) (Payload.string abc (omega arith)) tail 2 none

-- The 2^32 that is written on six bytes is read as 0.
pb_decode_varint32-padded-Reads_example :
    pb_decode_varint32 (reading (padded 4294967296 ++ tail) (length (padded 4294967296) + 2) none)
    ≡ ok 0 (reading tail 2 none)
pb_decode_varint32-padded-Reads_example =
    pb_decode_varint32-padded-Reads 4294967296 (omega arith) tail 2 none

-- A stream over four bytes.
abbrev four : Istream (List ℕ)
four = reading (0x85 ∷ 0x01 ∷ 0x02 ∷ 0x03 ∷ []) 4 none

pb_skip_field_bound_example : LeavesAtMost 4 (pb_skip_field 2 four)
pb_skip_field_bound_example = pb_skip_field_bound 2 4 four (omega arith)

abbrev opened-inside : IsInside zeros 64 4 (inside_at zeros 64 4 0 none)
opened-inside = record { written_le = omega arith; stream = refl; outside = λ x out. refl }
