-- ===== src/App/Memory.antt =====
-- A database that meets the interface, for the runs: the list of the writes, the last one first.
use flchat.Base.{
  ◌≡◌, refl, sym, ap, subst, append-nil, append_assoc, ◌⊎◌, inl, inr, true, Option, none, some,
  List, [], ◌∷◌, ◌++◌, arith, Bool-cases, if◌then◌else◌,
}
use flchat.App.Values.{
  String, ◌==◌, eq_iff, Scalar, Value, scalar, object, Dictionary, KeyPath, lookup,
}
use flchat.App.Database.{below, or_else, merged, is_prefix, contains, Database, IsFirebase}

pub data Write : Type 0 where
  updated : KeyPath → Dictionary → Write
  removed : KeyPath → Write

unfoldable pub leaf_of : List Write → KeyPath → Option Scalar
leaf_of [] q = none
leaf_of (updated p d ∷ s) q = merged p d q (leaf_of s q)
leaf_of (removed p ∷ s) q = if is_prefix p q then none else leaf_of s q

abbrev scalar_paths : KeyPath → List (String × Scalar) → List KeyPath
scalar_paths p [] = []
scalar_paths p ((k, v) ∷ d) = (p ++ (k ∷ [])) ∷ scalar_paths p d

abbrev value_paths : KeyPath → Value → List KeyPath
value_paths p (scalar x) = p ∷ []
value_paths p (object d) = scalar_paths p d

abbrev dictionary_paths : KeyPath → Dictionary → List KeyPath
dictionary_paths p [] = []
dictionary_paths p ((k, v) ∷ d) = value_paths (p ++ (k ∷ [])) v ++ dictionary_paths p d

abbrev written_paths : List Write → List KeyPath
written_paths [] = []
written_paths (updated p d ∷ s) = written_paths s ++ dictionary_paths p d
written_paths (removed p ∷ s) = written_paths s

-- the child of the node `p` that a path goes through
abbrev child_of : KeyPath → KeyPath → Option String
child_of [] [] = none
child_of [] (k ∷ q) = some k
child_of (a ∷ p) [] = none
child_of (a ∷ p) (b ∷ q) = if a == b then child_of p q else none

abbrev add_key : Option Scalar → Option String → List String → List String
add_key none k l = l
add_key (some x) none l = l
add_key (some x) (some k) l = if contains l k then l else k ∷ l

unfoldable pub keys_of : List Write → KeyPath → List KeyPath → List String
unfolding leaf_of
keys_of s p [] = []
keys_of s p (q ∷ qs) = add_key (leaf_of s q) (child_of p q) (keys_of s p qs)

abbrev pub memory : Database
memory = record {
  Store = List Write;
  leaf = leaf_of;
  keys = λ s p. keys_of s p (written_paths s);
  update_child_values = λ s p d. updated p d ∷ s;
  remove_value = λ s p. removed p ∷ s;
}

abbrev In : KeyPath → List KeyPath → Type 0
In q [] = ⊥
In q (r ∷ l) = (q ≡ r) ⊎ In q l

In-append_left : (q : KeyPath) (l m : List KeyPath) → In q l → In q (l ++ m)
In-append_left q [] m h = elim h [ ]
In-append_left q (r ∷ l) m (inl e) = inl e
In-append_left q (r ∷ l) m (inr h) = inr (In-append_left q l m h)

In-append_right : (q : KeyPath) (l m : List KeyPath) → In q m → In q (l ++ m)
In-append_right q [] m h = h
In-append_right q (r ∷ l) m h = inr (In-append_right q l m h)

child_of-append : (p : KeyPath) (k : String) (q : KeyPath) → child_of p (p ++ (k ∷ q)) ≡ some k
child_of-append [] k q = refl
child_of-append (a ∷ p) k q = ground (arith, eq_iff a a, child_of-append p k q)

contains-add_key_old :
    (o : Option Scalar) (c : Option String) (l : List String) (k : String)
    → contains l k ≡ true
    → contains (add_key o c l) k ≡ true
contains-add_key_old none c l k h = h
contains-add_key_old (some x) none l k h = h
contains-add_key_old (some x) (some j) l k h = ground arith

contains-add_key_new :
    (x : Scalar) (l : List String) (k : String) → contains (add_key (some x) (some k) l) k ≡ true
contains-add_key_new x l k = ground (arith, eq_iff k k)

keys_of-contains :
    (s : List Write) (p : KeyPath) (k : String) (q : KeyPath) (x : Scalar) (qs : List KeyPath)
    → leaf_of s (p ++ (k ∷ q)) ≡ some x
    → In (p ++ (k ∷ q)) qs
    → contains (keys_of s p qs) k ≡ true
unfolding keys_of
keys_of-contains s p k q x [] h m = elim m [ ]
keys_of-contains s p k q x (r ∷ qs) h (inl e) =
    subst (λ t. contains (add_key (leaf_of s t) (child_of p t) (keys_of s p qs)) k ≡ true) e
      (rw (h, child_of-append p k q) (contains-add_key_new x (keys_of s p qs) k))
keys_of-contains s p k q x (r ∷ qs) h (inr m) =
    contains-add_key_old (leaf_of s r) (child_of p r) (keys_of s p qs) k
      (keys_of-contains s p k q x qs h m)

scalar_paths-lookup :
    (p : KeyPath) (o : List (String × Scalar)) (j : String) (x : Scalar)
    → lookup j o ≡ some x
    → In (p ++ (j ∷ [])) (scalar_paths p o)
scalar_paths-lookup p [] j x h = absurd (cc)
scalar_paths-lookup p ((k, v) ∷ o) j x h = elim (Bool-cases (k == j)) [
  | inl e ↦ inl (ap (λ (t : String). p ++ (t ∷ [])) (sym ((eq_iff k j).0 e)))
  | inr e ↦ inr (scalar_paths-lookup p o j x (ground (arith, e, h)))
]

value_paths-below :
    (p : KeyPath) (v : Value) (q : KeyPath) (x : Scalar)
    → below v q ≡ some x
    → In (p ++ q) (value_paths p v)
value_paths-below p (scalar y) [] x h = inl (append-nil p)
value_paths-below p (scalar y) (k ∷ q) x h = absurd (cc)
value_paths-below p (object o) [] x h = absurd (cc)
value_paths-below p (object o) (k ∷ []) x h = scalar_paths-lookup p o k x h
value_paths-below p (object o) (k ∷ j ∷ q) x h = absurd (cc)

dictionary_paths-or_else :
    (p : KeyPath) (d : Dictionary) (k : String) (q : KeyPath) (old : Option Scalar) (x : Scalar)
    → or_else (lookup k d) q old ≡ some x
    → In (p ++ (k ∷ q)) (dictionary_paths p d) ⊎ (old ≡ some x)
dictionary_paths-or_else p [] k q old x h = inr h
dictionary_paths-or_else p ((j, v) ∷ d) k q old x h = elim (Bool-cases (j == k)) [
  | inl e ↦
      let jk : j ≡ k = (eq_iff j k).0 e in
      let hb : below v q ≡ some x = ground (arith, e, h) in
      inl (
        In-append_left (p ++ (k ∷ q)) (value_paths (p ++ (j ∷ [])) v) (dictionary_paths p d) (
          subst (λ (t : String). In (p ++ (t ∷ q)) (value_paths (p ++ (j ∷ [])) v)) jk
            (subst (λ (t : KeyPath). In t (value_paths (p ++ (j ∷ [])) v))
              (append_assoc p (j ∷ []) q) (value_paths-below (p ++ (j ∷ [])) v q x hb))))
  | inr e ↦ elim (dictionary_paths-or_else p d k q old x (ground (arith, e, h))) [
    | inl m ↦
        inl
          (In-append_right (p ++ (k ∷ q)) (value_paths (p ++ (j ∷ [])) v) (dictionary_paths p d) m)
    | inr o ↦ inr o
  ]
]

-- What an update writes at `b ∷ q` below the node `p`, seen from the node's parents `r`.
dictionary_paths-merged :
    (r p : KeyPath) (d : Dictionary) (q : KeyPath) (old : Option Scalar) (x : Scalar)
    → merged p d q old ≡ some x
    → In (r ++ q) (dictionary_paths (r ++ p) d) ⊎ (old ≡ some x)
dictionary_paths-merged r p [] q old x h = inr h
dictionary_paths-merged r [] (e ∷ d) [] old x h = absurd (cc)
dictionary_paths-merged r [] (e ∷ d) (k ∷ q) old x h =
    subst (λ (c : KeyPath). In (r ++ (k ∷ q)) (dictionary_paths c (e ∷ d)) ⊎ (old ≡ some x))
      (sym (append-nil r)) (dictionary_paths-or_else r (e ∷ d) k q old x h)
dictionary_paths-merged r (a ∷ p) (e ∷ d) [] old x h = absurd (cc)
dictionary_paths-merged r (a ∷ p) (e ∷ d) (b ∷ q) old x h = elim (Bool-cases (a == b)) [
  | inl t ↦
      let ab : a ≡ b = (eq_iff a b).0 t in
      let m : In ((r ++ (a ∷ [])) ++ q) (dictionary_paths ((r ++ (a ∷ [])) ++ p) (e ∷ d))
          ⊎ (old ≡ some x) =
        dictionary_paths-merged (r ++ (a ∷ [])) p (e ∷ d) q old x (ground (arith, t, h)) in
      subst
        (λ (c : String).
          In (r ++ (c ∷ q)) (dictionary_paths (r ++ (a ∷ p)) (e ∷ d)) ⊎ (old ≡ some x))
        ab
        (subst (λ (c : KeyPath). In c (dictionary_paths (r ++ (a ∷ p)) (e ∷ d)) ⊎ (old ≡ some x))
          (append_assoc r (a ∷ []) q)
          (subst
            (λ (c : KeyPath).
              In ((r ++ (a ∷ [])) ++ q) (dictionary_paths c (e ∷ d)) ⊎ (old ≡ some x))
            (append_assoc r (a ∷ []) p) m))
  | inr t ↦ inr (ground (arith, t, h))
]

written_paths-leaf :
    (s : List Write) (q : KeyPath) (x : Scalar) → leaf_of s q ≡ some x → In q (written_paths s)
unfolding leaf_of
written_paths-leaf [] q x h = absurd (cc)
written_paths-leaf (updated p d ∷ s) q x h =
    elim (dictionary_paths-merged [] p d q (leaf_of s q) x h) [
      | inl m ↦ In-append_right q (written_paths s) (dictionary_paths p d) m
      | inr o ↦
          In-append_left q (written_paths s) (dictionary_paths p d) (written_paths-leaf s q x o)
    ]
written_paths-leaf (removed p ∷ s) q x h = written_paths-leaf s q x (ground arith)

child_of-split :
    (p q : KeyPath) (k : String) → child_of p q ≡ some k → (r : KeyPath) × (q ≡ p ++ (k ∷ r))
child_of-split [] [] k h = absurd (cc)
child_of-split [] (j ∷ q) k h = (q, cc h)
child_of-split (a ∷ p) [] k h = absurd (cc)
child_of-split (a ∷ p) (b ∷ q) k h = elim (Bool-cases (a == b)) [
  | inl e ↦
      let split = child_of-split p q k (ground (arith, e, h)) in
      let ab : a ≡ b = (eq_iff a b).0 e in (split.0, cc (ab, split.1))
  | inr e ↦ absurd (ground (arith, e, h))
]

add_key-cases :
    (o : Option Scalar) (c : Option String) (l : List String) (k : String)
    → contains (add_key o c l) k ≡ true
    → (contains l k ≡ true) ⊎ ((c ≡ some k) × ((x : Scalar) × (o ≡ some x)))
add_key-cases none c l k h = inl h
add_key-cases (some x) none l k h = inl h
add_key-cases (some x) (some j) l k h = elim (Bool-cases (j == k)) [
  | inl e ↦ inr (ap some ((eq_iff j k).0 e), (x, refl))
  | inr e ↦ inl (ground (arith, e, h))
]

keys_of-leaf :
    (s : List Write) (p : KeyPath) (k : String) (qs : List KeyPath)
    → contains (keys_of s p qs) k ≡ true
    → (q : KeyPath) × ((x : Scalar) × (leaf_of s (p ++ (k ∷ q)) ≡ some x))
unfolding keys_of
keys_of-leaf s p k [] h = absurd (cc)
keys_of-leaf s p k (r ∷ qs) h =
    elim (add_key-cases (leaf_of s r) (child_of p r) (keys_of s p qs) k h) [
      | inl old ↦ keys_of-leaf s p k qs old
      | inr (c, (x, e)) ↦
          let split = child_of-split p r k c in
          (split.0, (x, subst (λ (t : KeyPath). leaf_of s t ≡ some x) split.1 e))
    ]

pub memory-IsFirebase : IsFirebase memory
unfolding leaf_of
memory-IsFirebase = record {
  leaf-update = λ s p d q. refl;
  leaf-remove = λ s p q. refl;
  contains-keys = λ s p k q x h.
      keys_of-contains s p k q x (written_paths s) h (written_paths-leaf s (p ++ (k ∷ q)) x h);
  keys-leaf = λ s p k h. keys_of-leaf s p k (written_paths s) h;
}
