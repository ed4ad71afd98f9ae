-- ===== src/Pb/AType.antt =====
-- The allocation types of a field: PB_ATYPE_* of FLChat/Pods/nanopb/pb.h.
use flchat.Base.{ℕ}

abbrev pub static : ℕ
static = 0x00

abbrev pub pointer : ℕ
pointer = 0x80

abbrev pub callback : ℕ
callback = 0x40
