-- ===== src/App/RemovedKeeps.antt =====
-- `removeFriendRequestsFromDatabase` keeps the invariant of the database.
use flchat.Base.{
  ◌≡◌, refl, sym, subst, inl, inr, false, none, some, List, [], ◌∷◌, ◌++◌, ◌∙◌, Bool-cases,
}
use flchat.App.Values.{String, ◌==◌, eq_iff, KeyPath}
use flchat.App.Database.{Database, IsFirebase}
use flchat.App.Service.{
  Removals, remove, friend_request_ref, remove_requests, remove_for_each,
  remove_friend_requests_from_database,
}
use flchat.App.Records.{IsWhole}
use flchat.App.WellFormed.{WellFormed}
use flchat.App.Kept.{IsWhole-same}
use flchat.App.Removed.{is_prefix-append}

module _ (D : Database) (laws : IsFirebase D) where
  open D use {Store, leaf, keys, remove_value}

  remove-other_table :
      (s : Store) (t table : String) (p q : KeyPath)
      → (t == table) ≡ false
      → leaf (remove_value s (t ∷ p)) (table ∷ q) ≡ leaf s (table ∷ q)
  remove-other_table s t table p q h = rw (laws.leaf-remove s (t ∷ p) (table ∷ q), h) refl

  pub remove-under : (s : Store) (p q : KeyPath) → leaf (remove_value s p) (p ++ q) ≡ none
  remove-under s p q = rw (laws.leaf-remove s p (p ++ q), is_prefix-append p q) refl

  remove-other_record :
      (s : Store) (table key key' : String) (q : KeyPath)
      → (key == key') ≡ false
      → leaf (remove_value s (table ∷ (key ∷ []))) (table ∷ (key' ∷ q))
        ≡ leaf s (table ∷ (key' ∷ q))
  remove-other_record s table key key' q h =
      rw
        (
          laws.leaf-remove s (table ∷ (key ∷ [])) (table ∷ (key' ∷ q)),
          (eq_iff table table).1 refl,
          h,
        )
        refl

  remove_record-IsWhole :
      (s : Store) (table key name key' : String)
      → IsWhole D s (table ∷ (key' ∷ (name ∷ [])))
      → IsWhole D (remove_value s (table ∷ (key ∷ []))) (table ∷ (key' ∷ (name ∷ [])))
  remove_record-IsWhole s table key name key' whole = elim (Bool-cases (key == key')) [
    | inl same ↦
        subst
          (λ (j : String).
            IsWhole D (remove_value s (table ∷ (key ∷ []))) (table ∷ (j ∷ (name ∷ []))))
          ((eq_iff key key').0 same)
          (λ k q x h.
            let gone : none ≡ some x =
              sym (remove-under s (table ∷ (key ∷ [])) (name ∷ (k ∷ q))) ∙ h in
            absurd (cc gone))
    | inr other ↦
        IsWhole-same D laws s _ _
          (λ k q. remove-other_record s table key key' (name ∷ (k ∷ q)) other) whole
  ]

  pub WellFormed-remove_request :
      (s : Store) (key : String)
      → WellFormed D s
      → WellFormed D (remove_value s (friend_request_ref key))
  WellFormed-remove_request s key w = record {
    senders =
        λ key'. remove_record-IsWhole s "friend_request" key "fromIdUser" key' (w.senders key');
    recipients =
        λ key'. remove_record-IsWhole s "friend_request" key "toIdUser" key' (w.recipients key');
    friends_from = λ key'.
        IsWhole-same D laws s _ _ (λ k q. remove-other_table s "friend_request" "friends" _ _ refl)
          (w.friends_from key');
    friends_to = λ key'.
        IsWhole-same D laws s _ _ (λ k q. remove-other_table s "friend_request" "friends" _ _ refl)
          (w.friends_to key');
  }

  -- a removal in another table
  pub WellFormed-remove :
      (s : Store) (t : String) (p : KeyPath)
      → (t == "friend_request") ≡ false
      → (t == "friends") ≡ false
      → WellFormed D s
      → WellFormed D (remove_value s (t ∷ p))
  WellFormed-remove s t p r f w = record {
    senders =
        λ key. IsWhole-same D laws s _ _ (λ k q. remove-other_table s t _ p _ r) (w.senders key);
    recipients =
        λ key. IsWhole-same D laws s _ _ (λ k q. remove-other_table s t _ p _ r) (w.recipients key);
    friends_from = λ key.
        IsWhole-same D laws s _ _ (λ k q. remove-other_table s t _ p _ f) (w.friends_from key);
    friends_to =
        λ key. IsWhole-same D laws s _ _ (λ k q. remove-other_table s t _ p _ f) (w.friends_to key);
  }

  WellFormed-remove_requests :
      (removals : Removals) (l : List String) (s : Store) (to_id from_id : String)
      → WellFormed D s
      → WellFormed D (remove_requests D removals s to_id from_id l)
  unfolding remove_requests
  WellFormed-remove_requests removals [] s to_id from_id w = w
  WellFormed-remove_requests removals (key ∷ rest) s to_id from_id w =
      WellFormed-remove_requests removals rest _ to_id from_id (
        removed _ ("user_friend_request" ∷ (from_id ∷ (to_id ∷ [])))
          (WellFormed-remove _ "user_friend_request" _ refl refl)
          (removed _ ("user_friend_request" ∷ (to_id ∷ (from_id ∷ [])))
            (WellFormed-remove _ "user_friend_request" _ refl refl)
            (removed s (friend_request_ref key) (WellFormed-remove_request s key) w)))
    where
      removed :
          (t : Store) (p : KeyPath)
          → (WellFormed D t → WellFormed D (remove_value t p))
          → WellFormed D t
          → WellFormed D (remove D removals t p)
      removed t p keeps v = elim (Bool-cases (removals p)) [
        | inl e ↦ rw e (keeps v)
        | inr e ↦ rw e v
      ]

  WellFormed-remove_for_each :
      (removals : Removals) (l : List String) (s : Store) (to_id from_id : String)
      → WellFormed D s
      → WellFormed D (remove_for_each D removals s to_id from_id l)
  unfolding remove_for_each
  WellFormed-remove_for_each removals [] s to_id from_id w = w
  WellFormed-remove_for_each removals (key ∷ rest) s to_id from_id w =
      WellFormed-remove_for_each removals rest _ to_id from_id
        (WellFormed-remove_requests removals _ s to_id from_id w)

  pub WellFormed-remove_friend_requests_from_database :
      (removals : Removals) (s : Store) (to_id from_id : String)
      → WellFormed D s
      → WellFormed D (remove_friend_requests_from_database D removals s to_id from_id)
  unfolding remove_friend_requests_from_database
  WellFormed-remove_friend_requests_from_database removals s to_id from_id w =
      WellFormed-remove_for_each removals _ s to_id from_id w
