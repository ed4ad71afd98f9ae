-- ===== src/Pb/WireType.antt =====
-- The wire types: pb_wire_type_t of FLChat/Pods/nanopb/pb.h. A value read from the wire can be any
-- number below 8.
use flchat.Base.{ℕ}

abbrev pub varint : ℕ
varint = 0

abbrev pub bit64 : ℕ
bit64 = 1

abbrev pub string : ℕ
string = 2

abbrev pub bit32 : ℕ
bit32 = 5
