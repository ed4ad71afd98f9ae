-- ===== src/App/Database.antt =====
-- The Firebase database, which the application only calls, as an interface: a tree whose leaves are
-- scalars. `IsFirebase` holds what Firebase documents of it and the application relies on.
use flchat.Base.{◌≡◌, Bool, true, false, Option, none, some, List, [], ◌∷◌, ◌++◌, if◌then◌else◌}
use flchat.App.Values.{String, ◌==◌, Scalar, Value, scalar, object, Dictionary, KeyPath, lookup}

-- the leaf at a path below a value
abbrev pub below : Value → KeyPath → Option Scalar
below (scalar x) [] = some x
below (scalar x) (k ∷ q) = none
below (object d) [] = none
below (object d) (k ∷ []) = lookup k d
below (object d) (k ∷ j ∷ q) = none

abbrev pub or_else : Option Value → KeyPath → Option Scalar → Option Scalar
or_else none q old = old
or_else (some v) q old = below v q

-- The leaf at the path `q` after an update at `p`: the children that the dictionary names are
-- replaced, all else stays, and a leaf above them becomes a node.
abbrev pub merged : KeyPath → Dictionary → KeyPath → Option Scalar → Option Scalar
merged p [] q old = old
merged [] (e ∷ d) [] old = none
merged [] (e ∷ d) (k ∷ q) old = or_else (lookup k (e ∷ d)) q old
merged (a ∷ p) (e ∷ d) [] old = none
merged (a ∷ p) (e ∷ d) (b ∷ q) old = if a == b then merged p (e ∷ d) q old else old

abbrev pub is_prefix : KeyPath → KeyPath → Bool
is_prefix [] q = true
is_prefix (a ∷ p) [] = false
is_prefix (a ∷ p) (b ∷ q) = if a == b then is_prefix p q else false

abbrev pub contains : List String → String → Bool
contains [] k = false
contains (j ∷ l) k = if j == k then true else contains l k

pub record Database : Type 1 where
  pub Store : Type 0
  pub leaf : Store → KeyPath → Option Scalar
  pub keys : Store → KeyPath → List String  -- the children, in the order of the events childAdded
  pub update_child_values : Store → KeyPath → Dictionary → Store
  pub remove_value : Store → KeyPath → Store

pub record IsFirebase (D : Database) : Type 0 where
  pub leaf-update :
      (s : D.Store) (p : KeyPath) (d : Dictionary) (q : KeyPath)
      → D.leaf (D.update_child_values s p d) q ≡ merged p d q (D.leaf s q)
  pub leaf-remove :
      (s : D.Store) (p q : KeyPath)
      → D.leaf (D.remove_value s p) q ≡ (if is_prefix p q then none else D.leaf s q)
  pub contains-keys :
      (s : D.Store) (p : KeyPath) (k : String) (q : KeyPath) (x : Scalar)
      → D.leaf s (p ++ (k ∷ q)) ≡ some x
      → contains (D.keys s p) k ≡ true
  pub keys-leaf :
      (s : D.Store) (p : KeyPath) (k : String)
      → contains (D.keys s p) k ≡ true
      → (q : KeyPath) × ((x : Scalar) × (D.leaf s (p ++ (k ∷ q)) ≡ some x))
