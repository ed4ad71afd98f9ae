-- ===== src/Pb/Program.antt =====
-- What nanopb uses of the application: descriptors of messages, and functions behind pointers, which
-- are numbers here (FLChat/Pods/nanopb/pb.h).
use flchat.Base.{ℕ, List}
use flchat.Base.Memory.{Memory, load_word}
use flchat.Pb.{Field}
use flchat.Pb.Ostream.{Encoder}

-- What the encoders use of the application: the descriptors at an address, the value of a NULL
-- `state`, and its functions, which stand at addresses too: those of a `pb_callback_t`, given the
-- address of `arg`, and those of a `pb_extension_type_t`, given the address of the extension.
pub record Program (S : Type 0) : Type 0 where
  pub descriptors : ℕ → List Field
  pub null : S
  pub encode_callback : ℕ → Field → ℕ → Encoder S
  pub encode_extension : ℕ → ℕ → Encoder S

-- `*(void **)a`
abbrev pub pointer_at : Memory → ℕ → ℕ
pointer_at m a = load_word m a 8
