-- ===== src/App/Friendship.antt =====
-- Accepting a friend request: the friendship in both users' lists, and the request gone from both.
use flchat.Base.{◌≡◌, refl, subst, ℕ, Bool, true, false, Option, none, some, [], ◌∷◌, ◌++◌}
use flchat.App.Values.{String, ◌==◌, number, KeyPath, ◌>>=◌}
use flchat.App.Database.{Database, IsFirebase}
use flchat.App.Models.{Account, User, users}
use flchat.App.Service.{
  Removals, all_removed, friend_request_ref, user_friend_request_ref, friend_into_db,
  user_friend_into_db, recipients_user_friend_into_db,
}
use flchat.App.Search.{matches, get_all_frinds}
use flchat.App.Requests.{Selected, Answers, add_userto_friends_btn_pressed}
use flchat.App.Observe.{In, Returns, Ends}
use flchat.App.WellFormed.{WellFormed}
use flchat.App.Kept.{WellFormed-update, WellFormed-friend_into_db}
use flchat.App.RemovedKeeps.{WellFormed-remove_friend_requests_from_database}
use flchat.App.Delivery.{selected_fields, own_fields, all_accepted}
use flchat.App.Accepted.{
  switch-own, switch-other, friends_complete, accepted, accepted-from_id, accepted-UserAt,
  accepted-recipient, accepted-own, accepted-request,
}

module _ (D : Database) (laws : IsFirebase D) where
  open D use {Store, leaf, keys}

  -- `addUsertoFriendsBtnPressed` of a user that is logged in returns, whatever the server answers to its
  -- three writes and to its removals, and keeps the users in requests and friendships whole.
  pub add_userto_friends_btn_pressed-WellFormed :
      (a : Account) (user : User) (selected : Selected) (time : ℕ) (key : String)
      (answers : Answers) (removals : Removals) (s : Store)
      → WellFormed D s
      → Returns
          (add_userto_friends_btn_pressed D (some a) user selected time key answers removals s)
          (WellFormed D)
  unfolding add_userto_friends_btn_pressed user_friend_into_db recipients_user_friend_into_db ◌>>=◌
  add_userto_friends_btn_pressed-WellFormed a user selected time key answers removals s w = (
    _,
    (
      refl,
      WellFormed-remove_friend_requests_from_database D laws removals _ a.uid selected.uid (
          WellFormed-update D laws answers.third _ "user_friends" _ _ refl refl (
            WellFormed-update D laws answers.second _ "user_friends" _ _ refl refl (
              WellFormed-friend_into_db D laws answers.first s key selected.uid a.uid
                (selected_fields selected) (own_fields a.uid user) time true w))),
    ),
  )

  -- On a database whose users in requests and friendships are whole, `addUsertoFriendsBtnPressed` of a user
  -- that is logged in, on the sender of a request other than that user, returns where the server accepts
  -- its three writes and its removals, and then both users' searches for friends end without a crash: each, for a
  -- query that matches the other user, has the other user among its users.
  pub add_userto_friends_btn_pressed-befriended :
      (includes : String → String → Bool) (a : Account) (user : User) (selected : Selected)
      (email : Option String) (time : ℕ) (key query other_query : String) (s : Store)
      → WellFormed D s
      → (a.uid == selected.uid) ≡ false
      → matches includes (some a) query selected.email ≡ true
      → matches includes
          (some (record { uid = selected.uid; email = email }))
          other_query
          user.email
        ≡ true
      → Returns
          (add_userto_friends_btn_pressed D
            (some a)
            user
            selected
            time
            key
            all_accepted
            all_removed
            s)
          (λ t.
            Ends (get_all_frinds D includes (some a) query t) (
              In (
                users selected.uid selected.name selected.url_image selected.email selected.phone
                  selected.status))
            × Ends
                (get_all_frinds D includes
                  (some (record { uid = selected.uid; email = email }))
                  other_query
                  t)
                (In (users a.uid user.name user.image user.email user.phone user.online)))
  unfolding add_userto_friends_btn_pressed friend_into_db user_friend_into_db
      recipients_user_friend_into_db ◌>>=◌
  add_userto_friends_btn_pressed-befriended includes a user selected email time key query
        other_query s w apart m other_m =
      let b : Account = record { uid = selected.uid; email = email } in
      let from = selected_fields selected in
      let to = own_fields a.uid user in
      let t = accepted D laws selected.uid a.uid key from to time s in
      let (t', (e, kept)) =
        add_userto_friends_btn_pressed-WellFormed a user selected time key all_accepted all_removed
          s w in
      let same : t' ≡ t = cc e in
      let w' = subst (WellFormed D) same kept in
      let by = accepted-from_id D laws selected.uid a.uid key from to time s in
      (
        t,
        (
          refl,
          (
            friends_complete D laws includes a query t key from w'
                (accepted-own D laws selected.uid a.uid key from to time s)
                (rw (switch-other D laws a selected.uid key t by apart) (
                  accepted-UserAt D laws selected.uid a.uid key from to time s "fromIdUser" from
                    refl))
                m,
            friends_complete D laws includes b other_query t key to w'
                (accepted-recipient D laws selected.uid a.uid key from to time s)
                (rw (switch-own D laws b key t by)
                  (accepted-UserAt D laws selected.uid a.uid key from to time s "toIdUser" to refl))
                other_m,
          ),
        ),
      )

  -- `addUsertoFriendsBtnPressed` of a user that is logged in returns, and where the server accepts its
  -- three writes and its removals, a request that stands in the lists of both users is then gone: its record and both
  -- lists hold nothing.
  pub add_userto_friends_btn_pressed-request :
      (a : Account) (user : User) (selected : Selected) (time : ℕ) (key request : String)
      (s : Store)
      → leaf s (user_friend_request_ref a.uid selected.uid ++ (request ∷ [])) ≡ some (number 1)
      → leaf s (user_friend_request_ref selected.uid a.uid ++ (request ∷ [])) ≡ some (number 1)
      → Returns
          (add_userto_friends_btn_pressed D
            (some a)
            user
            selected
            time
            key
            all_accepted
            all_removed
            s)
          (λ t.
            (q : KeyPath)
            → (leaf t (friend_request_ref request ++ q) ≡ none)
              × ((leaf t (user_friend_request_ref a.uid selected.uid ++ q) ≡ none)
                  × (leaf t (user_friend_request_ref selected.uid a.uid ++ q) ≡ none)))
  unfolding add_userto_friends_btn_pressed friend_into_db user_friend_into_db
      recipients_user_friend_into_db ◌>>=◌
  add_userto_friends_btn_pressed-request a user selected time key request s own other = (
    _,
    (
      refl,
      accepted-request D laws selected.uid a.uid key (selected_fields selected)
          (own_fields a.uid user) time s request own other,
    ),
  )
