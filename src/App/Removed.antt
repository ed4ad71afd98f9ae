-- ===== src/App/Removed.antt =====
-- What `removeFriendRequestsFromDatabase` removes.
use flchat.Base.{
  ◌≡◌, refl, sym, ap, Bool, true, false, none, some, List, [], ◌∷◌, ◌++◌, ◌∙◌, ◌||◌, arith,
  if◌then◌else◌,
}
use flchat.App.Values.{String, ◌==◌, eq_iff, KeyPath}
use flchat.App.Database.{Database, IsFirebase, is_prefix, contains}
use flchat.App.Service.{
  Removals, all_removed, friend_request_ref, user_friend_request_ref, remove_requests,
  remove_for_each, remove_friend_requests_from_database,
}

-- The leaves that one round takes away, and those that all rounds do.
abbrev pub removed_by : String → String → String → KeyPath → Bool
removed_by to_id from_id key q =
    is_prefix (user_friend_request_ref from_id to_id) q
    || (is_prefix (user_friend_request_ref to_id from_id) q || is_prefix (friend_request_ref key) q)

abbrev pub any_removed : String → String → List String → KeyPath → Bool
any_removed to_id from_id [] q = false
any_removed to_id from_id (key ∷ rest) q =
    removed_by to_id from_id key q || any_removed to_id from_id rest q

abbrev pub is_empty : List String → Bool
is_empty [] = true
is_empty (k ∷ l) = false

pub is_prefix-append : (p q : KeyPath) → is_prefix p (p ++ q) ≡ true
is_prefix-append [] q = refl
is_prefix-append (a ∷ p) q = rw ((eq_iff a a).1 refl) (is_prefix-append p q)

module _ (D : Database) (laws : IsFirebase D) where
  open D use {Store, leaf, keys, remove_value}

  remove_requests-leaf :
      (l : List String) (s : Store) (to_id from_id : String) (q : KeyPath)
      → leaf (remove_requests D all_removed s to_id from_id l) q
        ≡ (if any_removed to_id from_id l q then none else leaf s q)
  unfolding remove_requests
  remove_requests-leaf [] s to_id from_id q = refl
  remove_requests-leaf (key ∷ rest) s to_id from_id q =
      let s₁ = remove_value s (friend_request_ref key) in
      let s₂ = remove_value s₁ (user_friend_request_ref to_id from_id) in
      let s₃ = remove_value s₂ (user_friend_request_ref from_id to_id) in
      ground (
        arith,
        remove_requests-leaf rest s₃ to_id from_id q,
        laws.leaf-remove s₂ (user_friend_request_ref from_id to_id) q,
        laws.leaf-remove s₁ (user_friend_request_ref to_id from_id) q,
        laws.leaf-remove s (friend_request_ref key) q,
      )

  keys-none : (s : Store) (p : KeyPath) → ((q : KeyPath) → leaf s (p ++ q) ≡ none) → keys s p ≡ []
  keys-none s p gone = nothing (keys s p) refl
    where
      nothing : (l : List String) → keys s p ≡ l → keys s p ≡ []
      nothing [] e = e
      nothing (k ∷ l) e =
          let c : contains (keys s p) k ≡ true = rw (e, (eq_iff k k).1 refl) refl in
          let (q, (x, h)) = laws.keys-leaf s p k c in
          let both : none ≡ some x = sym (gone (k ∷ q)) ∙ h in absurd (cc both)

  remove_for_each-none :
      (removals : Removals) (l : List String) (s : Store) (to_id from_id : String)
      → keys s (user_friend_request_ref from_id to_id) ≡ []
      → remove_for_each D removals s to_id from_id l ≡ s
  unfolding remove_for_each remove_requests
  remove_for_each-none removals [] s to_id from_id e = refl
  remove_for_each-none removals (k ∷ l) s to_id from_id e =
      rw (e, remove_requests) (remove_for_each-none removals l s to_id from_id e)

  remove_requests-keys :
      (l : List String) (s : Store) (to_id from_id : String)
      → keys s (user_friend_request_ref from_id to_id) ≡ l
      → keys
          (remove_requests D all_removed s to_id from_id l)
          (user_friend_request_ref from_id to_id)
        ≡ []
  unfolding remove_requests
  remove_requests-keys [] s to_id from_id e = e
  remove_requests-keys (j ∷ l) s to_id from_id e =
      keys-none _ (user_friend_request_ref from_id to_id) (λ q.
        remove_requests-leaf (j ∷ l) s to_id from_id (user_friend_request_ref from_id to_id ++ q)
        ∙ rw (is_prefix-append (user_friend_request_ref from_id to_id) q) refl)

  remove_for_each-leaf :
      (l : List String) (s : Store) (to_id from_id : String) (q : KeyPath)
      → leaf (remove_for_each D all_removed s to_id from_id l) q ≡ (
          if is_empty l
          then leaf s q
          else if any_removed to_id from_id (keys s (user_friend_request_ref from_id to_id)) q
          then none
          else leaf s q)
  unfolding remove_for_each
  remove_for_each-leaf [] s to_id from_id q = refl
  remove_for_each-leaf (k ∷ l) s to_id from_id q =
      let inner = keys s (user_friend_request_ref from_id to_id) in
      ap (λ (t : Store). leaf t q)
        (remove_for_each-none all_removed l _ to_id from_id
          (remove_requests-keys inner s to_id from_id refl))
      ∙ remove_requests-leaf inner s to_id from_id q

  -- Where the server accepts its removals: when the first list of requests has no entry,
  -- `removeFriendRequestsFromDatabase` changes nothing;
  -- otherwise, where the second list has an entry, it removes both lists and the request of each key in
  -- the second list; every other leaf of the database stays as it is.
  pub remove_friend_requests_from_database-leaf :
      (s : Store) (to_id from_id : String) (q : KeyPath)
      → leaf (remove_friend_requests_from_database D all_removed s to_id from_id) q ≡ (
          if is_empty (keys s (user_friend_request_ref to_id from_id))
          then leaf s q
          else if any_removed to_id from_id (keys s (user_friend_request_ref from_id to_id)) q
          then none
          else leaf s q)
  unfolding remove_friend_requests_from_database
  remove_friend_requests_from_database-leaf s to_id from_id q =
      remove_for_each-leaf (keys s (user_friend_request_ref to_id from_id)) s to_id from_id q

  any_removed-other_table :
      (l : List String) (to_id from_id table : String) (q : KeyPath)
      → ("user_friend_request" == table) ≡ false
      → ("friend_request" == table) ≡ false
      → any_removed to_id from_id l (table ∷ q) ≡ false
  any_removed-other_table [] to_id from_id table q u r = refl
  any_removed-other_table (k ∷ l) to_id from_id table q u r =
      rw (u, r) (any_removed-other_table l to_id from_id table q u r)

  -- the other tables stay
  pub remove_friend_requests_from_database-other_table :
      (s : Store) (to_id from_id table : String) (q : KeyPath)
      → ("user_friend_request" == table) ≡ false
      → ("friend_request" == table) ≡ false
      → leaf (remove_friend_requests_from_database D all_removed s to_id from_id) (table ∷ q)
        ≡ leaf s (table ∷ q)
  remove_friend_requests_from_database-other_table s to_id from_id table q u r = ground (
    arith,
    remove_friend_requests_from_database-leaf s to_id from_id (table ∷ q),
    any_removed-other_table (keys s (user_friend_request_ref from_id to_id)) to_id from_id table q u
        r,
  )

  any_removed-key :
      (l : List String) (to_id from_id key : String) (q : KeyPath)
      → contains l key ≡ true
      → any_removed to_id from_id l (friend_request_ref key ++ q) ≡ true
  any_removed-key [] to_id from_id key q c = absurd (cc)
  any_removed-key (k ∷ l) to_id from_id key q c =
      ground (arith, eq_iff k key, any_removed-key l to_id from_id key q)

  any_removed-lists :
      (l : List String) (to_id from_id key : String) (q : KeyPath)
      → contains l key ≡ true
      → (any_removed to_id from_id l (user_friend_request_ref from_id to_id ++ q) ≡ true)
        × (any_removed to_id from_id l (user_friend_request_ref to_id from_id ++ q) ≡ true)
  any_removed-lists [] to_id from_id key q c = absurd (cc)
  any_removed-lists (k ∷ l) to_id from_id key q c = (
    ground (arith, eq_iff from_id from_id, eq_iff to_id to_id),
    ground (arith, eq_iff from_id from_id, eq_iff to_id to_id),
  )

  is_empty-contains : (l : List String) (k : String) → contains l k ≡ true → is_empty l ≡ false
  is_empty-contains [] k c = absurd (cc)
  is_empty-contains (j ∷ l) k c = refl

  removed-leaf :
      (s : Store) (to_id from_id key key' : String) (q : KeyPath)
      → contains (keys s (user_friend_request_ref to_id from_id)) key' ≡ true
      → any_removed to_id from_id (keys s (user_friend_request_ref from_id to_id)) q ≡ true
      → leaf (remove_friend_requests_from_database D all_removed s to_id from_id) q ≡ none
  removed-leaf s to_id from_id key key' q c r = ground (
    arith,
    remove_friend_requests_from_database-leaf s to_id from_id q,
    r,
    is_empty-contains (keys s (user_friend_request_ref to_id from_id)) key' c,
  )

  -- A request that stands in both lists is removed, and so are both lists.
  pub remove_friend_requests_from_database-removed :
      (s : Store) (to_id from_id key key' : String)
      → contains (keys s (user_friend_request_ref to_id from_id)) key' ≡ true
      → contains (keys s (user_friend_request_ref from_id to_id)) key ≡ true
      → (q : KeyPath)
      → (leaf
            (remove_friend_requests_from_database D all_removed s to_id from_id)
            (friend_request_ref key ++ q)
          ≡ none)
        × ((leaf
                (remove_friend_requests_from_database D all_removed s to_id from_id)
                (user_friend_request_ref to_id from_id ++ q)
              ≡ none)
            × (leaf
                  (remove_friend_requests_from_database D all_removed s to_id from_id)
                  (user_friend_request_ref from_id to_id ++ q)
                ≡ none))
  remove_friend_requests_from_database-removed s to_id from_id key key' c d q =
      let l = keys s (user_friend_request_ref from_id to_id) in
      let (own, other) = any_removed-lists l to_id from_id key q d in
      (
        removed-leaf s to_id from_id key key' _ c (any_removed-key l to_id from_id key q d),
        (
          removed-leaf s to_id from_id key key' _ c other,
          removed-leaf s to_id from_id key key' _ c own,
        ),
      )

  -- Where the second list has no entry, nothing is removed.
  pub remove_friend_requests_from_database-none :
      (removals : Removals) (s : Store) (to_id from_id : String)
      → ((q : KeyPath) → leaf s (user_friend_request_ref from_id to_id ++ q) ≡ none)
      → remove_friend_requests_from_database D removals s to_id from_id ≡ s
  unfolding remove_friend_requests_from_database
  remove_friend_requests_from_database-none removals s to_id from_id gone =
      remove_for_each-none removals (keys s (user_friend_request_ref to_id from_id)) s to_id from_id
        (keys-none s (user_friend_request_ref from_id to_id) gone)
