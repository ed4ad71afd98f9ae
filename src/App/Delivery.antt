-- ===== src/App/Delivery.antt =====
-- A friend request, from the button to both users' lists.
use flchat.Base.{
  ◌≡◌, refl, ap, subst, ◌∙◌, inl, inr, ℕ, Bool, true, false, Option, some, List, [], ◌∷◌, ◌++◌,
  arith, Bool-cases,
}
use flchat.App.Values.{String, ◌==◌, eq_iff, Scalar, number, object, Dictionary, ◌>>=◌}
use flchat.App.Database.{Database, IsFirebase, contains, merged}
use flchat.App.Models.{Account, User, users, users_without_id}
use flchat.App.Service.{
  double, string, bool, entry, update, friend_request_ref, user_friend_request_ref,
  friend_request_into_db, user_friend_request_into_db, recipients_user_friend_request_into_db,
}
use flchat.App.Search.{
  matches, reported, request_keys, sender_of, recipient_of, get_users_whom_friend_request_been_send,
  get_users_who_send_request_to_friends,
}
use flchat.App.Requests.{Selected, Answers, send_frien_request_btn_pressed}
use flchat.App.Records.{Fields, UserAt}
use flchat.App.Observe.{found, In, Returns, Ends, observe-growing, found-In}
use flchat.App.WellFormed.{
  WellFormed, users_of, users_of_without_id, side, sender_of-UserAt, sender_of-NoCrash,
  recipient_of-UserAt, recipient_of-NoCrash,
}
use flchat.App.Kept.{
  params_of, WellFormed-update, WellFormed-friend_request_into_db, entry-leaf, update-UserAt,
  UserAt-update,
}

abbrev pub selected_fields : Selected → Fields
selected_fields u = record {
  id = u.uid;
  name = u.name;
  image = u.url_image;
  email = u.email;
  phone = u.phone;
  online = u.status;
}

abbrev pub own_fields : String → User → Fields
own_fields uid user = record {
  id = uid;
  name = user.name;
  image = user.image;
  email = user.email;
  phone = user.phone;
  online = user.online;
}

abbrev pub all_accepted : Answers
all_accepted = record { first = true; second = true; third = true }

-- what a request holds
abbrev request_value : String → String → Fields → Fields → ℕ → Dictionary
request_value from_id to_id from to time =
    ("fromId", string from_id)
    ∷ (("fromIdUser", object (params_of from))
        ∷ (("toId", string to_id)
            ∷ (("toIdUser", object (params_of to))
                ∷ (("timeStamp", double time)
                    ∷ (("message", string "Hi! I want to be your friend")
                        ∷ (("confirmReques", bool false) ∷ []))))))

pub contains-append_left :
    (l m : List String) (k : String) → contains l k ≡ true → contains (l ++ m) k ≡ true
contains-append_left [] m k h = absurd (cc)
contains-append_left (j ∷ l) m k h = ground (arith, contains-append_left l m k)

pub contains-append_right :
    (l m : List String) (k : String) → contains m k ≡ true → contains (l ++ m) k ≡ true
contains-append_right [] m k h = h
contains-append_right (j ∷ l) m k h = ground (arith, contains-append_right l m k h)

module _ (D : Database) (laws : IsFirebase D) where
  open D use {Store, leaf, keys}

  pub request_keys-contains :
      (s : Store) (uid other key : String) (l : List String)
      → contains l other ≡ true
      → contains (keys s (user_friend_request_ref uid other)) key ≡ true
      → contains (request_keys D s uid l) key ≡ true
  unfolding request_keys
  request_keys-contains s uid other key [] c h = absurd (cc)
  request_keys-contains s uid other key (j ∷ l) c h = elim (Bool-cases (j == other)) [
    | inl e ↦
        contains-append_left (keys s (user_friend_request_ref uid j)) (request_keys D s uid l) key
          (rw ((eq_iff j other).0 e) h)
    | inr e ↦
        contains-append_right (keys s (user_friend_request_ref uid j)) (request_keys D s uid l) key
          (request_keys-contains s uid other key l (ground (arith, e, c)) h)
  ]

  -- an entry of the list `uid` / `other` is met by the search
  request_keys-leaf :
      (s : Store) (uid other key : String)
      → leaf s (user_friend_request_ref uid other ++ (key ∷ [])) ≡ some (number 1)
      → contains (request_keys D s uid (keys s ("user_friend_request" ∷ (uid ∷ [])))) key ≡ true
  request_keys-leaf s uid other key h =
      request_keys-contains s uid other key (keys s ("user_friend_request" ∷ (uid ∷ [])))
        (laws.contains-keys s ("user_friend_request" ∷ (uid ∷ [])) other (key ∷ []) (number 1) h)
        (laws.contains-keys s (user_friend_request_ref uid other) key [] (number 1) h)

  entry-merged :
      (uid other key : String) (old : Option Scalar)
      → old ≡ some (number 1)
      → merged
          (user_friend_request_ref uid other)
          (entry key)
          (user_friend_request_ref other uid ++ (key ∷ []))
          old
        ≡ some (number 1)
  entry-merged uid other key old h = ground (arith, h, eq_iff key key)

  -- what the request and the two lists then hold of a user
  stays :
      (s : Store) (uid other key : String) {name : String} {u : Fields}
      → UserAt D s (side (friend_request_ref key) name) u
      → UserAt D
          (update D true
            (update D true s (user_friend_request_ref uid other) (entry key))
            (user_friend_request_ref other uid)
            (entry key))
          (side (friend_request_ref key) name)
          u
  stays s uid other key {name} {u} at =
      UserAt-update D laws true _ "user_friend_request" "friend_request" _ _ (key ∷ (name ∷ [])) u
        refl
        (UserAt-update D laws true s "user_friend_request" "friend_request" _ _ (key ∷ (name ∷ []))
          u refl at)

  -- `sendFrienRequestBtnPressed` of a user that is logged in returns, whatever the server answers to its
  -- three writes, and keeps the users in requests and friendships whole.
  pub send_frien_request_btn_pressed-WellFormed :
      (a : Account) (user : User) (selected : Selected) (time : ℕ) (key : String)
      (answers : Answers) (s : Store)
      → WellFormed D s
      → Returns
          (send_frien_request_btn_pressed D (some a) user selected time key answers s)
          (WellFormed D)
  unfolding send_frien_request_btn_pressed user_friend_request_into_db
      recipients_user_friend_request_into_db ◌>>=◌
  send_frien_request_btn_pressed-WellFormed a user selected time key answers s w = (
    _,
    (
      refl,
      WellFormed-update D laws answers.third _ "user_friend_request" _ _ refl refl (
          WellFormed-update D laws answers.second _ "user_friend_request" _ _ refl refl (
            WellFormed-friend_request_into_db D laws answers.first s key a.uid selected.uid
              (own_fields a.uid user) (selected_fields selected) time "Hi! I want to be your friend"
              false w)),
    ),
  )

  module _ (includes : String → String → Bool) (a : Account) (query : String) where
    -- A whole request in the list of the user `a` is found by the search of the received requests.
    received_complete :
        (s : Store) (other key : String) (u : Fields)
        → WellFormed D s
        → leaf s (user_friend_request_ref a.uid other ++ (key ∷ [])) ≡ some (number 1)
        → UserAt D s (side (friend_request_ref key) "fromIdUser") u
        → matches includes (some a) query u.email ≡ true
        → Ends (get_users_who_send_request_to_friends D includes (some a) query s) (In (users_of u))
    unfolding get_users_who_send_request_to_friends ◌>>=◌
    received_complete s other key u w listed at m =
        let handler = sender_of D includes (some a) query s in
        let l = request_keys D s a.uid (keys s ("user_friend_request" ∷ (a.uid ∷ []))) in
        (
          found handler l,
          (
            observe-growing handler l []
                (λ k. sender_of-NoCrash D laws includes (some a) query s k (w.senders k)),
            found-In handler l key (users_of u) (request_keys-leaf s a.uid other key listed) (
                sender_of-UserAt D laws includes (some a) query s key u at
                ∙ ap (λ (b : Bool). reported b (users_of u)) m),
          ),
        )

    sent_complete :
        (s : Store) (other key : String) (u : Fields)
        → WellFormed D s
        → leaf s (user_friend_request_ref a.uid other ++ (key ∷ [])) ≡ some (number 1)
        → UserAt D s (side (friend_request_ref key) "toIdUser") u
        → matches includes (some a) query u.email ≡ true
        → Ends
            (get_users_whom_friend_request_been_send D includes (some a) query s)
            (In (users_of_without_id u))
    unfolding get_users_whom_friend_request_been_send ◌>>=◌
    sent_complete s other key u w listed at m =
        let handler = recipient_of D includes (some a) query s in
        let l = request_keys D s a.uid (keys s ("user_friend_request" ∷ (a.uid ∷ []))) in
        (
          found handler l,
          (
            observe-growing handler l []
                (λ k. recipient_of-NoCrash D laws includes (some a) query s k (w.recipients k)),
            found-In handler l key (users_of_without_id u)
                (request_keys-leaf s a.uid other key listed)
                (recipient_of-UserAt D laws includes (some a) query s key u at
                  ∙ ap (λ (b : Bool). reported b (users_of_without_id u)) m),
          ),
        )

  -- On a database whose users in requests and friendships are whole, `sendFrienRequestBtnPressed` of a
  -- user that is logged in, whose three writes the server accepts, returns, and then both searches end
  -- without a crash: the recipient's search of the received requests, for a query that matches the
  -- sender, has the sender among its users, and the sender's search of the requests sent, for a query
  -- that matches the recipient, has the recipient.
  pub send_frien_request_btn_pressed-delivered :
      (includes : String → String → Bool) (a : Account) (user : User) (selected : Selected)
      (email : Option String) (time : ℕ) (key query own_query : String) (s : Store)
      → WellFormed D s
      → matches includes (some (record { uid = selected.uid; email = email })) query user.email
        ≡ true
      → matches includes (some a) own_query selected.email ≡ true
      → Returns
          (send_frien_request_btn_pressed D (some a) user selected time key all_accepted s)
          (λ t.
            Ends
              (get_users_who_send_request_to_friends D includes
                (some (record { uid = selected.uid; email = email }))
                query
                t)
              (In (users a.uid user.name user.image user.email user.phone user.online))
            × Ends (get_users_whom_friend_request_been_send D includes (some a) own_query t) (
                In (
                  users_without_id selected.name selected.url_image selected.email selected.phone
                    selected.status)))
  unfolding send_frien_request_btn_pressed friend_request_into_db user_friend_request_into_db
      recipients_user_friend_request_into_db ◌>>=◌
  send_frien_request_btn_pressed-delivered includes a user selected email time key query own_query s
        w m own_m =
      let b : Account = record { uid = selected.uid; email = email } in
      let from = own_fields a.uid user in
      let to = selected_fields selected in
      let d : Dictionary = request_value a.uid selected.uid from to time in
      let s₁ = update D true s (friend_request_ref key) d in
      let s₂ = update D true s₁ (user_friend_request_ref a.uid selected.uid) (entry key) in
      let t = update D true s₂ (user_friend_request_ref selected.uid a.uid) (entry key) in
      let (t', (e, kept)) =
        send_frien_request_btn_pressed-WellFormed a user selected time key all_accepted s w in
      let same : t' ≡ t = cc e in
      let w' = subst (WellFormed D) same kept in
      let sender =
        stays s₁ a.uid selected.uid key
          (update-UserAt D laws s (friend_request_ref key) d "fromIdUser" from refl) in
      let recipient =
        stays s₁ a.uid selected.uid key
          (update-UserAt D laws s (friend_request_ref key) d "toIdUser" to refl) in
      (
        t,
        (
          refl,
          (
            received_complete includes b query t a.uid key from w'
                (entry-leaf D laws s₂ (user_friend_request_ref selected.uid a.uid) key) sender m,
            sent_complete includes a own_query t selected.uid key to w'
                (laws.leaf-update s₂ (user_friend_request_ref selected.uid a.uid) (entry key) _
                  ∙ entry-merged selected.uid a.uid key _
                      (entry-leaf D laws s₁ (user_friend_request_ref a.uid selected.uid) key))
                recipient own_m,
          ),
        ),
      )
