-- ===== src/App/Values.antt =====
-- What the database holds (a Dictionary<String,Any> of Swift), and how Swift code ends: by a result, by
-- the early return of a guard, or by a crash where nil is unwrapped.
pub use Prim.Native.String.{String}
pub use package.text.Mathlib.Text.{◌==◌}
pub use package.text.Mathlib.TextEquality.{eq_iff}
use flchat.Base.{ℕ, zero, suc, Bool, true, false, Option, none, some, List, [], ◌∷◌, if◌then◌else◌}

-- A Double (a time, a size) is only stored and returned, so a natural number stands for it.
pub data Scalar : Type 0 where
  text : String → Scalar
  flag : Bool → Scalar
  number : ℕ → Scalar

-- A dictionary may hold dictionaries, which hold scalars.
pub data Value : Type 0 where
  scalar : Scalar → Value
  object : List (String × Scalar) → Value

abbrev pub Dictionary : Type 0
Dictionary = List (String × Value)

abbrev pub KeyPath : Type 0
KeyPath = List String

abbrev pub lookup {ℓ} : {A : Type ℓ} → String → List (String × A) → Option A
lookup k [] = none
lookup k ((j, v) ∷ d) = if j == k then some v else lookup k d

pub data Attempt {ℓ} (A : Type ℓ) : Type ℓ where
  crash : Attempt A
  skip : Attempt A
  ok : A → Attempt A

infixl 5 ◌>>=◌
unfoldable pub ◌>>=◌ {ℓ κ} : {A : Type ℓ} {B : Type κ} → Attempt A → (A → Attempt B) → Attempt B
crash >>= f = crash
skip >>= f = skip
ok a >>= f = f a

-- x!
abbrev pub unwrap {ℓ} : {A : Type ℓ} → Option A → Attempt A
unwrap none = crash
unwrap (some a) = ok a

-- guard let
abbrev pub guard {ℓ} : {A : Type ℓ} → Option A → Attempt A
guard none = skip
guard (some a) = ok a

-- value as? String
abbrev pub as_string : Option Scalar → Option String
as_string (some (text s)) = some s
as_string _ = none

-- value as? Bool, which takes the numbers 0 and 1 too
abbrev pub as_bool : Option Scalar → Option Bool
as_bool (some (flag b)) = some b
as_bool (some (number zero)) = some false
as_bool (some (number (suc zero))) = some true
as_bool _ = none

-- value as? Double, which takes a Boolean too
abbrev pub as_double : Option Scalar → Option ℕ
as_double (some (number n)) = some n
as_double (some (flag b)) = some (if b then 1 else 0)
as_double _ = none
