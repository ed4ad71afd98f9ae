-- ===== src/App/WellFormed.antt =====
-- The invariant of the database: the users that stand in requests and friendships are whole. Then no
-- search crashes on them, and what each finds is what stands in its records.
use flchat.Base.{
  ◌≡◌, refl, ◌≢◌, ◌⊎◌, inl, inr, Bool, true, false, Option, some, List, [], ◌∷◌, ◌++◌, arith,
}
use flchat.App.Values.{String, eq_iff, Scalar, text, KeyPath, crash, skip, ok, ◌>>=◌}
use flchat.App.Database.{Database, IsFirebase, contains}
use flchat.App.Models.{Account, Users, users, users_without_id}
use flchat.App.Service.{friend_request_ref, friends_ref}
use flchat.App.Search.{
  as_dictionary, matches, reported, switch_user_recipient, friend_of, sender_of, recipient_of,
}
use flchat.App.Records.{Fields, UserAt, IsWhole, found_user-UserAt, found_user_without_id-UserAt}

abbrev pub users_of : Fields → Users
users_of u = users u.id u.name u.image u.email u.phone u.online

abbrev pub users_of_without_id : Fields → Users
users_of_without_id u = users_without_id u.name u.image u.email u.phone u.online

abbrev pub side : KeyPath → String → KeyPath
side p name = p ++ (name ∷ [])

module _ (D : Database) where
  open D use {Store, leaf, keys}

  pub record WellFormed (s : Store) : Type 0 where
    pub senders : (key : String) → IsWhole D s (side (friend_request_ref key) "fromIdUser")
    pub recipients : (key : String) → IsWhole D s (side (friend_request_ref key) "toIdUser")
    pub friends_from : (key : String) → IsWhole D s (side (friends_ref key) "fromIdUser")
    pub friends_to : (key : String) → IsWhole D s (side (friends_ref key) "toIdUser")

as_dictionary-contains :
    (l : List String) (p : KeyPath) (k : String) → contains l k ≡ true → as_dictionary l p ≡ ok p
as_dictionary-contains [] p k h = absurd (cc)
as_dictionary-contains (j ∷ l) p k h = refl

pub as_dictionary-cases :
    (l : List String) (p : KeyPath)
    → (as_dictionary l p ≡ skip)
      ⊎ ((k : String) × ((contains l k ≡ true) × (as_dictionary l p ≡ ok p)))
as_dictionary-cases [] p = inl refl
as_dictionary-cases (k ∷ l) p = inr (k, (ground (arith, eq_iff k k), refl))

reported-NoCrash : (b : Bool) (u : Users) → reported b u ≢ crash
reported-NoCrash true u h = absurd (cc)
reported-NoCrash false u h = absurd (cc)

module _ (D : Database) (laws : IsFirebase D) where
  open D use {Store, leaf, keys}

  pub as_dictionary-leaf :
      (s : Store) (p : KeyPath) (k : String) (q : KeyPath) (x : Scalar)
      → leaf s (p ++ (k ∷ q)) ≡ some x
      → as_dictionary (keys s p) p ≡ ok p
  as_dictionary-leaf s p k q x h =
      as_dictionary-contains (keys s p) p k (laws.contains-keys s p k q x h)

  -- a node is no dictionary, or a whole user
  pub IsWhole-cases :
      (s : Store) (p : KeyPath)
      → IsWhole D s p
      → (as_dictionary (keys s p) p ≡ skip)
        ⊎ ((u : Fields) × (UserAt D s p u × (as_dictionary (keys s p) p ≡ ok p)))
  IsWhole-cases s p whole = elim (as_dictionary-cases (keys s p) p) [
    | inl e ↦ inl e
    | inr (k, (c, e)) ↦
        let (q, (x, h)) = laws.keys-leaf s p k c in let (u, at) = whole k q x h in inr (u, (at, e))
  ]

  module _ (includes : String → String → Bool) (me : Option Account) (query : String) where
    pub sender_of-UserAt :
        (s : Store) (key : String) (u : Fields)
        → UserAt D s (side (friend_request_ref key) "fromIdUser") u
        → sender_of D includes me query s key
          ≡ reported (matches includes me query u.email) (users_of u)
    unfolding sender_of ◌>>=◌
    sender_of-UserAt s key u h =
        rw
          (as_dictionary-leaf s (side (friend_request_ref key) "fromIdUser") "uid" [] (text u.id)
            h.at_uid)
          (found_user-UserAt D includes me query s (side (friend_request_ref key) "fromIdUser") u h)

    pub sender_of-NoCrash :
        (s : Store) (key : String)
        → IsWhole D s (side (friend_request_ref key) "fromIdUser")
        → sender_of D includes me query s key ≢ crash
    unfolding sender_of ◌>>=◌
    sender_of-NoCrash s key whole =
        elim (IsWhole-cases s (side (friend_request_ref key) "fromIdUser") whole) [
          | inl e ↦ rw e (λ c. absurd (cc))
          | inr (u, (h, e)) ↦
              rw (sender_of-UserAt s key u h)
                (reported-NoCrash (matches includes me query u.email) (users_of u))
        ]

    pub recipient_of-UserAt :
        (s : Store) (key : String) (u : Fields)
        → UserAt D s (side (friend_request_ref key) "toIdUser") u
        → recipient_of D includes me query s key
          ≡ reported (matches includes me query u.email) (users_of_without_id u)
    unfolding recipient_of ◌>>=◌
    recipient_of-UserAt s key u h =
        rw
          (as_dictionary-leaf s (side (friend_request_ref key) "toIdUser") "uid" [] (text u.id)
            h.at_uid)
          (found_user_without_id-UserAt D includes me query s
            (side (friend_request_ref key) "toIdUser") u h)

    pub recipient_of-NoCrash :
        (s : Store) (key : String)
        → IsWhole D s (side (friend_request_ref key) "toIdUser")
        → recipient_of D includes me query s key ≢ crash
    unfolding recipient_of ◌>>=◌
    recipient_of-NoCrash s key whole =
        elim (IsWhole-cases s (side (friend_request_ref key) "toIdUser") whole) [
          | inl e ↦ rw e (λ c. absurd (cc))
          | inr (u, (h, e)) ↦
              rw (recipient_of-UserAt s key u h)
                (reported-NoCrash (matches includes me query u.email) (users_of_without_id u))
        ]

    pub friend_of-UserAt :
        (s : Store) (key : String) (u : Fields)
        → UserAt D s (side (friends_ref key) (switch_user_recipient D me s (friends_ref key))) u
        → friend_of D includes me query s key
          ≡ reported (matches includes me query u.email) (users_of u)
    unfolding friend_of ◌>>=◌
    friend_of-UserAt s key u h =
        let name = switch_user_recipient D me s (friends_ref key) in
        rw (as_dictionary-leaf s (friends_ref key) name ("uid" ∷ []) (text u.id) h.at_uid) (
          rw (as_dictionary-leaf s (side (friends_ref key) name) "uid" [] (text u.id) h.at_uid)
            (found_user-UserAt D includes me query s (side (friends_ref key) name) u h))

    pub friend_of-NoCrash :
        (s : Store) (key : String)
        → IsWhole D s (side (friends_ref key) (switch_user_recipient D me s (friends_ref key)))
        → friend_of D includes me query s key ≢ crash
    unfolding friend_of ◌>>=◌
    friend_of-NoCrash s key whole =
        elim (as_dictionary-cases (keys s (friends_ref key)) (friends_ref key)) [
          | inl e ↦ rw e (λ c. absurd (cc))
          | inr (k, (c, d)) ↦
              elim (IsWhole-cases s
                (side (friends_ref key) (switch_user_recipient D me s (friends_ref key))) whole) [
                  | inl e ↦ rw (d, e) (λ c. absurd (cc))
                  | inr (u, (h, e)) ↦
                      rw (friend_of-UserAt s key u h)
                        (reported-NoCrash (matches includes me query u.email) (users_of u))
                ]
        ]
