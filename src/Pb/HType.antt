-- ===== src/Pb/HType.antt =====
-- The repetition rules of a field: PB_HTYPE_* of FLChat/Pods/nanopb/pb.h.
use flchat.Base.{ℕ}

abbrev pub required : ℕ
required = 0x00

abbrev pub optional : ℕ
optional = 0x10

abbrev pub repeated : ℕ
repeated = 0x20

abbrev pub oneof : ℕ
oneof = 0x30
