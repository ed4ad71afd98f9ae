-- ===== src/Pb/EncodeField/Text.antt =====
-- The string that `pb_enc_string` finds in the structure.
use flchat.Base.{
  ℕ, zero, suc, ◌+◌, ◌-◌, ◌^◌, ◌≤◌, ◌<◌, ◌≡◌, ◌≢◌, refl, arith, List, [], ◌∷◌, length, ◌==◌,
  if◌then◌else◌,
}
use flchat.Base.Memory.{Memory, load}
use mathlib.Core.Path.{ap₂}
use flchat.Pb.{Field, pb_atype}
use flchat.Pb.AType
use flchat.Pb.Encode.{pb_encode_string}
use flchat.Pb.EncodeField.{string_length, pb_enc_string}

-- The text and its 0 stand at the address.
abbrev pub HoldsText : Memory → ℕ → List ℕ → Type 0
HoldsText m p [] = m p ≡ 0
HoldsText m p (b ∷ text) = (m p ≡ b) × (b ≢ 0) × HoldsText m (p + 1) text

string_length_text :
    (text : List ℕ) (max_size : ℕ) (m : Memory) (p : ℕ)
    → HoldsText m p text
    → length text ≤ max_size
    → string_length max_size m p ≡ length text
unfolding string_length
string_length_text [] zero m p h le = refl
string_length_text [] (suc max_size) m p h le = ground arith
string_length_text (b ∷ text) zero m p h le = absurd (omega arith)
string_length_text (b ∷ text) (suc max_size) m p h le =
    ground (arith, string_length_text text max_size m (p + 1) h.2)

load_text :
    (text : List ℕ) (m : Memory) (p : ℕ) → HoldsText m p text → load m p (length text) ≡ text
unfolding load
load_text [] m p h = refl
load_text (b ∷ text) m p h = ap₂ ◌∷◌ h.0 (load_text text m (p + 1) h.2)

-- A text in the structure that ends in a 0 within the field's bytes is what `pb_enc_string` encodes,
-- on every stream.
pub pb_enc_string-pb_encode_string :
    {S : Type 0} (m : Memory) (field : Field) (src : ℕ) (text : List ℕ)
    → src ≢ 0
    → HoldsText m src text
    → length text < field.data_size
    → field.data_size < 2 ^ 32
    → pb_enc_string {S = S} m field src ≡ pb_encode_string text (length text)
unfolding pb_enc_string
pb_enc_string-pb_encode_string {S} m field src text ne h room small =
    let found : (if src == 0
          then 0
          else string_length
              (if pb_atype field.type == AType.pointer then 2 ^ 64 - 1 else field.data_size) m src)
        ≡ length text =
      ground (
        arith,
        string_length_text text (2 ^ 64 - 1) m src h,
        string_length_text text field.data_size m src h,
      ) in
    rw (found, load_text text m src h) refl
