-- ===== src/App/Kept.antt =====
-- Each write of the service keeps the invariant of the database.
use flchat.Base.{
  ◌≡◌, refl, sym, subst, inl, inr, append_assoc, Bool, true, false, ℕ, Option, none, some, [], ◌∷◌,
  ◌++◌, ◌∙◌, arith, Bool-cases, if◌then◌else◌,
}
use flchat.App.Values.{
  String, ◌==◌, eq_iff, Scalar, text, flag, number, Dictionary, Value, object, KeyPath, lookup,
}
use flchat.App.Database.{Database, IsFirebase, below, merged}
use flchat.App.Service.{UserParams, double, entry, update, friend_request_into_db, friend_into_db}
use flchat.App.Records.{Fields, UserAt, IsWhole}
use flchat.App.WellFormed.{WellFormed}

-- the parameters of a user, as both controllers write them
abbrev pub params_of : Fields → UserParams
params_of u =
    ("uid", text u.id)
    ∷ (("name", text u.name)
        ∷ (("image", text u.image)
            ∷ (("email", text u.email)
                ∷ (("phone", text u.phone) ∷ (("online", flag u.online) ∷ [])))))

pub lookup-entry : (key : String) → lookup key (entry key) ≡ some (double 1)
lookup-entry key = ground (arith, eq_iff key key)

module _ (D : Database) (laws : IsFirebase D) where
  open D use {Store, leaf, update_child_values}

  pub UserAt-same :
      (s t : Store) (p : KeyPath) (u : Fields)
      → ((k : String) → leaf t (p ++ (k ∷ [])) ≡ leaf s (p ++ (k ∷ [])))
      → UserAt D s p u
      → UserAt D t p u
  UserAt-same s t p u same at = record {
    at_uid = same "uid" ∙ at.at_uid;
    at_name = same "name" ∙ at.at_name;
    at_image = same "image" ∙ at.at_image;
    at_email = same "email" ∙ at.at_email;
    at_phone = same "phone" ∙ at.at_phone;
    at_online = same "online" ∙ at.at_online;
  }

  pub IsWhole-same :
      (s t : Store) (p : KeyPath)
      → ((k : String) (q : KeyPath) → leaf t (p ++ (k ∷ q)) ≡ leaf s (p ++ (k ∷ q)))
      → IsWhole D s p
      → IsWhole D t p
  IsWhole-same s t p same whole k q x h =
      let (u, at) = whole k q x (sym (same k q) ∙ h) in (u, UserAt-same s t p u (λ j. same j []) at)

  pub update-leaf :
      (accepted : Bool) (s : Store) (p : KeyPath) (d : Dictionary) (q : KeyPath)
      → leaf (update D accepted s p d) q ≡ (if accepted then merged p d q (leaf s q) else leaf s q)
  update-leaf true s p d q = laws.leaf-update s p d q
  update-leaf false s p d q = refl

  merged-other_table :
      (t table : String) (p : KeyPath) (d : Dictionary) (q : KeyPath) (old : Option Scalar)
      → (t == table) ≡ false
      → merged (t ∷ p) d (table ∷ q) old ≡ old
  merged-other_table t table p [] q old h = refl
  merged-other_table t table p (e ∷ d) q old h = rw h refl

  pub update-other_table :
      (accepted : Bool) (s : Store) (t table : String) (p : KeyPath) (d : Dictionary) (q : KeyPath)
      → (t == table) ≡ false
      → leaf (update D accepted s (t ∷ p) d) (table ∷ q) ≡ leaf s (table ∷ q)
  update-other_table true s t table p d q h =
      laws.leaf-update s (t ∷ p) d (table ∷ q)
      ∙ merged-other_table t table p d q (leaf s (table ∷ q)) h
  update-other_table false s t table p d q h = refl

  -- A write to another table leaves a user as it is.
  pub UserAt-update :
      (accepted : Bool) (s : Store) (t table : String) (p : KeyPath) (d : Dictionary) (q : KeyPath)
      (u : Fields)
      → (t == table) ≡ false
      → UserAt D s (table ∷ q) u
      → UserAt D (update D accepted s (t ∷ p) d) (table ∷ q) u
  UserAt-update accepted s t table p d q u h at =
      UserAt-same s _ (table ∷ q) u (λ k. update-other_table accepted s t table p d _ h) at

  -- a write to another table
  pub WellFormed-update :
      (accepted : Bool) (s : Store) (t : String) (p : KeyPath) (d : Dictionary)
      → (t == "friend_request") ≡ false
      → (t == "friends") ≡ false
      → WellFormed D s
      → WellFormed D (update D accepted s (t ∷ p) d)
  WellFormed-update accepted s t p d r f w = record {
    senders = λ key.
        IsWhole-same s _ _ (λ k q. update-other_table accepted s t _ p d _ r) (w.senders key);
    recipients = λ key.
        IsWhole-same s _ _ (λ k q. update-other_table accepted s t _ p d _ r) (w.recipients key);
    friends_from = λ key.
        IsWhole-same s _ _ (λ k q. update-other_table accepted s t _ p d _ f) (w.friends_from key);
    friends_to = λ key.
        IsWhole-same s _ _ (λ k q. update-other_table accepted s t _ p d _ f) (w.friends_to key);
  }

  merged-under :
      (p : KeyPath) (d : Dictionary) (name : String) (v : Value) (q : KeyPath) (old : Option Scalar)
      → lookup name d ≡ some v
      → merged p d (p ++ (name ∷ q)) old ≡ below v q
  merged-under p [] name v q old h = absurd (cc)
  merged-under [] (e ∷ d) name v q old h = rw h refl
  merged-under (a ∷ p) (e ∷ d) name v q old h =
      rw ((eq_iff a a).1 refl) (merged-under p (e ∷ d) name v q old h)

  merged-missing :
      (p : KeyPath) (d : Dictionary) (name : String) (q : KeyPath) (old : Option Scalar)
      → lookup name d ≡ none
      → merged p d (p ++ (name ∷ q)) old ≡ old
  merged-missing p [] name q old h = refl
  merged-missing [] (e ∷ d) name q old h = rw h refl
  merged-missing (a ∷ p) (e ∷ d) name q old h =
      rw ((eq_iff a a).1 refl) (merged-missing p (e ∷ d) name q old h)

  -- what is read below a child that was not written
  pub update-missing :
      (s : Store) (p : KeyPath) (d : Dictionary) (name : String) (q : KeyPath)
      → lookup name d ≡ none
      → leaf (update_child_values s p d) (p ++ (name ∷ q)) ≡ leaf s (p ++ (name ∷ q))
  update-missing s p d name q h =
      laws.leaf-update s p d (p ++ (name ∷ q)) ∙ merged-missing p d name q _ h

  pub merged-other_record :
      (table key key' : String) (d : Dictionary) (q : KeyPath) (old : Option Scalar)
      → (key == key') ≡ false
      → merged (table ∷ (key ∷ [])) d (table ∷ (key' ∷ q)) old ≡ old
  merged-other_record table key key' [] q old h = refl
  merged-other_record table key key' (e ∷ d) q old h = rw ((eq_iff table table).1 refl, h) refl

  -- what is read below a child that was written
  pub update-under :
      (s : Store) (p : KeyPath) (d : Dictionary) (name : String) (v : Value) (q : KeyPath)
      → lookup name d ≡ some v
      → leaf (update_child_values s p d) (p ++ (name ∷ q)) ≡ below v q
  update-under s p d name v q h =
      laws.leaf-update s p d (p ++ (name ∷ q)) ∙ merged-under p d name v q _ h

  -- an entry that was written
  pub entry-leaf :
      (s : Store) (p : KeyPath) (key : String)
      → leaf (update_child_values s p (entry key)) (p ++ (key ∷ [])) ≡ some (number 1)
  entry-leaf s p key = update-under s p (entry key) key (double 1) [] (lookup-entry key)

  -- a user in a record that was written
  pub update-UserAt :
      (s : Store) (p : KeyPath) (d : Dictionary) (name : String) (u : Fields)
      → lookup name d ≡ some (object (params_of u))
      → UserAt D (update_child_values s p d) (p ++ (name ∷ [])) u
  update-UserAt s p d name u h = record {
    at_uid = at "uid";
    at_name = at "name";
    at_image = at "image";
    at_email = at "email";
    at_phone = at "phone";
    at_online = at "online";
  }
    where
      at :
          (k : String)
          → leaf (update_child_values s p d) ((p ++ (name ∷ [])) ++ (k ∷ []))
            ≡ below (object (params_of u)) (k ∷ [])
      at k = rw append_assoc (update-under s p d name (object (params_of u)) (k ∷ []) h)

  -- an update of a record, seen from the users in all records
  update_record-IsWhole :
      (s : Store) (table key name key' : String) (u : Fields) (d : Dictionary)
      → lookup name d ≡ some (object (params_of u))
      → IsWhole D s (table ∷ (key' ∷ (name ∷ [])))
      → IsWhole D (update_child_values s (table ∷ (key ∷ [])) d) (table ∷ (key' ∷ (name ∷ [])))
  update_record-IsWhole s table key name key' u d e whole = elim (Bool-cases (key == key')) [
    | inl same ↦
        subst
          (λ (k : String).
            IsWhole D (update_child_values s (table ∷ (key ∷ [])) d) (table ∷ (k ∷ (name ∷ []))))
          ((eq_iff key key').0 same)
          (λ k q x h. (u, update-UserAt s (table ∷ (key ∷ [])) d name u e))
    | inr other ↦
        IsWhole-same s _ _
          (λ k q.
            laws.leaf-update s (table ∷ (key ∷ [])) d _
            ∙ merged-other_record table key key' d _ _ other)
          whole
  ]

  pub WellFormed-friend_request_into_db :
      (accepted : Bool) (s : Store) (key from_id to_id : String) (from to : Fields) (time : ℕ)
      (msg : String) (confirm : Bool)
      → WellFormed D s
      → WellFormed D (
          friend_request_into_db D accepted s key from_id
            (params_of from)
            to_id
            (params_of to)
            time
            msg
            confirm)
  unfolding friend_request_into_db
  WellFormed-friend_request_into_db false s key from_id to_id from to time msg confirm w = w
  WellFormed-friend_request_into_db true s key from_id to_id from to time msg confirm w = record {
    senders = λ key'.
        update_record-IsWhole s "friend_request" key "fromIdUser" key' from _ refl (w.senders key');
    recipients = λ key'.
        update_record-IsWhole s "friend_request" key "toIdUser" key' to _ refl (w.recipients key');
    friends_from = λ key'.
        IsWhole-same s _ _ (λ k q. update-other_table true s "friend_request" "friends" _ _ _ refl)
          (w.friends_from key');
    friends_to = λ key'.
        IsWhole-same s _ _ (λ k q. update-other_table true s "friend_request" "friends" _ _ _ refl)
          (w.friends_to key');
  }

  pub WellFormed-friend_into_db :
      (accepted : Bool) (s : Store) (key from_id to_id : String) (from to : Fields) (time : ℕ)
      (confirm : Bool)
      → WellFormed D s
      → WellFormed D (
          friend_into_db D accepted s key from_id
            (params_of from)
            to_id
            (params_of to)
            time
            confirm)
  unfolding friend_into_db
  WellFormed-friend_into_db false s key from_id to_id from to time confirm w = w
  WellFormed-friend_into_db true s key from_id to_id from to time confirm w = record {
    senders = λ key'.
        IsWhole-same s _ _ (λ k q. update-other_table true s "friends" "friend_request" _ _ _ refl)
          (w.senders key');
    recipients = λ key'.
        IsWhole-same s _ _ (λ k q. update-other_table true s "friends" "friend_request" _ _ _ refl)
          (w.recipients key');
    friends_from = λ key'.
        update_record-IsWhole s "friends" key "fromIdUser" key' from _ refl (w.friends_from key');
    friends_to =
        λ key'. update_record-IsWhole s "friends" key "toIdUser" key' to _ refl (w.friends_to key');
  }
