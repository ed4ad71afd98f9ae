-- ===== src/App/Accepted.antt =====
-- The database after a request was accepted, and what the searches for friends find in it.
use flchat.Base.{
  ◌≡◌, refl, ap, ◌∙◌, inl, inr, ℕ, Bool, true, false, Option, none, some, [], ◌∷◌, ◌++◌, arith,
  Bool-cases,
}
use flchat.App.Values.{
  String, ◌==◌, eq_iff, Scalar, text, number, object, Dictionary, KeyPath, ◌>>=◌, lookup, as_string,
}
use flchat.App.Database.{Database, IsFirebase, merged}
use flchat.App.Models.{Account}
use flchat.App.Service.{
  double, string, bool, entry, update, friend_request_ref, user_friend_request_ref, friends_ref,
  all_removed, user_friends_ref, remove_friend_requests_from_database,
}
use flchat.App.Search.{
  matches, reported, same_uid, switch_user_recipient, friend_of, get_all_frinds,
}
use flchat.App.Records.{Fields, UserAt, IsWhole}
use flchat.App.Observe.{found, In, Ends, observe-growing, found-In}
use flchat.App.WellFormed.{WellFormed, users_of, side, friend_of-UserAt, friend_of-NoCrash}
use flchat.App.Kept.{
  params_of, entry-leaf, UserAt-same, update-under, update-UserAt, update-other_table,
}
use flchat.App.Removed.{
  remove_friend_requests_from_database-other_table, remove_friend_requests_from_database-removed,
}

-- what a friendship holds
abbrev pub friend_value : String → String → Fields → Fields → ℕ → Dictionary
friend_value from_id to_id from to time =
    ("fromId", string from_id)
    ∷ (("fromIdUser", object (params_of from))
        ∷ (("toId", string to_id)
            ∷ (("toIdUser", object (params_of to))
                ∷ (("timeStamp", double time) ∷ (("confirmReques", bool true) ∷ [])))))

friend_entry-merged :
    (uid other key : String) (old : Option Scalar)
    → old ≡ some (number 1)
    → merged (user_friends_ref uid) (entry key) (user_friends_ref other ++ (key ∷ [])) old
      ≡ some (number 1)
friend_entry-merged uid other key old h = ground (arith, h, eq_iff key key)

module _ (D : Database) (laws : IsFirebase D) where
  open D use {Store, leaf, keys}

  pub switch-IsWhole :
      (s : Store) (me : Option Account) (key : String)
      → WellFormed D s
      → IsWhole D s (side (friends_ref key) (switch_user_recipient D me s (friends_ref key)))
  switch-IsWhole s me key w =
      elim (Bool-cases (same_uid me (as_string (leaf s (friends_ref key ++ ("fromId" ∷ [])))))) [
        | inl e ↦ rw e (w.friends_to key)
        | inr e ↦ rw e (w.friends_from key)
      ]

  pub switch-own :
      (b : Account) (key : String) (s : Store)
      → leaf s (friends_ref key ++ ("fromId" ∷ [])) ≡ some (text b.uid)
      → switch_user_recipient D (some b) s (friends_ref key) ≡ "toIdUser"
  switch-own b key s h = rw (h, (eq_iff b.uid b.uid).1 refl) refl

  pub switch-other :
      (a : Account) (from_id key : String) (s : Store)
      → leaf s (friends_ref key ++ ("fromId" ∷ [])) ≡ some (text from_id)
      → (a.uid == from_id) ≡ false
      → switch_user_recipient D (some a) s (friends_ref key) ≡ "fromIdUser"
  switch-other a from_id key s h apart = rw (h, apart) refl

  -- A whole friendship in the list of the user `a` is found by the search of the friends.
  pub friends_complete :
      (includes : String → String → Bool) (a : Account) (query : String) (s : Store) (key : String)
      (u : Fields)
      → WellFormed D s
      → leaf s (user_friends_ref a.uid ++ (key ∷ [])) ≡ some (number 1)
      → UserAt D s (side (friends_ref key) (switch_user_recipient D (some a) s (friends_ref key))) u
      → matches includes (some a) query u.email ≡ true
      → Ends (get_all_frinds D includes (some a) query s) (In (users_of u))
  unfolding get_all_frinds ◌>>=◌
  friends_complete includes a query s key u w listed at m =
      let handler = friend_of D includes (some a) query s in
      let l = keys s (user_friends_ref a.uid) in
      (
        found handler l,
        (
          observe-growing handler l [] (λ k.
              friend_of-NoCrash D laws includes (some a) query s k (switch-IsWhole s (some a) k w)),
          found-In handler l key (users_of u)
              (laws.contains-keys s (user_friends_ref a.uid) key [] (number 1) listed)
              (friend_of-UserAt D laws includes (some a) query s key u at
                ∙ ap (λ (b : Bool). reported b (users_of u)) m),
        ),
      )

  module _ (from_id to_id key : String) (from to : Fields) (time : ℕ) (s : Store) where
    -- the database before the requests are removed, and at the end
    abbrev pub befriended : Store
    befriended =
        let s₁ = update D true s (friends_ref key) (friend_value from_id to_id from to time) in
        update D true (update D true s₁ (user_friends_ref to_id) (entry key))
          (user_friends_ref from_id) (entry key)

    abbrev pub accepted : Store
    accepted = remove_friend_requests_from_database D all_removed befriended to_id from_id

    pub accepted-friends :
        (q : KeyPath)
        → leaf accepted ("friends" ∷ q)
          ≡ leaf
              (update D true s (friends_ref key) (friend_value from_id to_id from to time))
              ("friends" ∷ q)
    accepted-friends q =
        remove_friend_requests_from_database-other_table D laws befriended to_id from_id "friends" q
          refl refl
        ∙ update-other_table D laws true _ "user_friends" "friends" _ _ q refl
        ∙ update-other_table D laws true _ "user_friends" "friends" _ _ q refl

    pub accepted-from_id : leaf accepted (friends_ref key ++ ("fromId" ∷ [])) ≡ some (text from_id)
    accepted-from_id =
        accepted-friends _
        ∙ update-under D laws s (friends_ref key) _ "fromId" (string from_id) [] refl

    pub accepted-UserAt :
        (name : String) (u : Fields)
        → lookup name (friend_value from_id to_id from to time) ≡ some (object (params_of u))
        → UserAt D accepted (side (friends_ref key) name) u
    accepted-UserAt name u e =
        UserAt-same D laws _ accepted (side (friends_ref key) name) u
          (λ k. accepted-friends (key ∷ (name ∷ (k ∷ []))))
          (update-UserAt D laws s (friends_ref key) _ name u e)

    pub accepted-user_friends :
        (q : KeyPath) → leaf accepted ("user_friends" ∷ q) ≡ leaf befriended ("user_friends" ∷ q)
    accepted-user_friends q =
        remove_friend_requests_from_database-other_table D laws befriended to_id from_id
          "user_friends" q refl refl

    pub accepted-recipient :
        leaf accepted (user_friends_ref from_id ++ (key ∷ [])) ≡ some (number 1)
    accepted-recipient =
        accepted-user_friends _ ∙ entry-leaf D laws _ (user_friends_ref from_id) key

    pub accepted-own : leaf accepted (user_friends_ref to_id ++ (key ∷ [])) ≡ some (number 1)
    accepted-own =
        accepted-user_friends _
        ∙ laws.leaf-update _ (user_friends_ref from_id) (entry key)
            (user_friends_ref to_id ++ (key ∷ []))
        ∙ friend_entry-merged from_id to_id key _ (entry-leaf D laws _ (user_friends_ref to_id) key)

    pub befriended-requests :
        (q : KeyPath)
        → leaf befriended ("user_friend_request" ∷ q) ≡ leaf s ("user_friend_request" ∷ q)
    befriended-requests q =
        update-other_table D laws true _ "user_friends" "user_friend_request" _ _ q refl
        ∙ update-other_table D laws true _ "user_friends" "user_friend_request" _ _ q refl
        ∙ update-other_table D laws true s "friends" "user_friend_request" _ _ q refl

    pub accepted-request :
        (request : String)
        → leaf s (user_friend_request_ref to_id from_id ++ (request ∷ [])) ≡ some (number 1)
        → leaf s (user_friend_request_ref from_id to_id ++ (request ∷ [])) ≡ some (number 1)
        → (q : KeyPath)
        → (leaf accepted (friend_request_ref request ++ q) ≡ none)
          × ((leaf accepted (user_friend_request_ref to_id from_id ++ q) ≡ none)
              × (leaf accepted (user_friend_request_ref from_id to_id ++ q) ≡ none))
    accepted-request request own other =
        remove_friend_requests_from_database-removed D laws befriended to_id from_id request request
          (laws.contains-keys befriended (user_friend_request_ref to_id from_id) request []
            (number 1) (befriended-requests _ ∙ own))
          (laws.contains-keys befriended (user_friend_request_ref from_id to_id) request []
            (number 1) (befriended-requests _ ∙ other))

    pub befriended-friend_request :
        (q : KeyPath) → leaf befriended ("friend_request" ∷ q) ≡ leaf s ("friend_request" ∷ q)
    befriended-friend_request q =
        update-other_table D laws true _ "user_friends" "friend_request" _ _ q refl
        ∙ update-other_table D laws true _ "user_friends" "friend_request" _ _ q refl
        ∙ update-other_table D laws true s "friends" "friend_request" _ _ q refl
