-- ===== src/App/Tests.antt =====
-- Runs of the application's code on a database that is a list of writes, and instances of the theorems.
use Prim.Native.String.{String}
use package.text.Mathlib.Text.{starts_with}
use flchat.Base.{◌≡◌, refl, true, false, not, none, some, [], ◌∷◌, ◌++◌}
use flchat.App.Values.{text, number, KeyPath, ok, ◌>>=◌}
use flchat.App.Database.{is_prefix}
use flchat.App.Models.{users_without_id}
use flchat.App.Memory.{memory, memory-IsFirebase, leaf_of, keys_of}
use flchat.App.Service.{
  Removals, all_removed, friend_request_ref, user_friend_request_ref, friend_request_into_db,
  friend_into_db,
}
use flchat.App.Search.{
  get_all_frinds, get_users_who_send_request_to_friends, get_users_whom_friend_request_been_send,
}
use flchat.App.Requests.{send_frien_request_btn_pressed, add_userto_friends_btn_pressed}
use flchat.App.WellFormed.{WellFormed}
use flchat.App.Observe.{In, Returns, Ends}
use flchat.App.Delivery.{
  all_accepted, send_frien_request_btn_pressed-WellFormed, send_frien_request_btn_pressed-delivered,
}
use flchat.App.Friendship.{
  add_userto_friends_btn_pressed-WellFormed, add_userto_friends_btn_pressed-befriended,
  add_userto_friends_btn_pressed-request,
}
use flchat.App.Samples.{
  ann, bob, ann_user, bob_selected, bob_users, ann_users, requested, listed, friends_listed,
  empty-WellFormed, requested-WellFormed, matches_ann, matches_bob,
}

-- Bob sees Ann's request.
received_run :
    (send_frien_request_btn_pressed memory (some ann) ann_user bob_selected 7 "r" all_accepted []
      >>= λ s. get_users_who_send_request_to_friends memory starts_with (some bob) "ann" s)
    ≡ ok ((ann_users ∷ []) ∷ [])
unfolding send_frien_request_btn_pressed get_users_who_send_request_to_friends ◌>>=◌ leaf_of keys_of
received_run = refl

send_frien_request_btn_pressed-delivered_example :
    Returns
      (send_frien_request_btn_pressed memory (some ann) ann_user bob_selected 7 "r" all_accepted [])
      (λ t.
        Ends
          (get_users_who_send_request_to_friends memory starts_with (some bob) "ann" t)
          (In ann_users)
        × Ends
            (get_users_whom_friend_request_been_send memory starts_with (some ann) "" t)
            (In (users_without_id "Bob" "bob.png" "bob@x" "2" true)))
send_frien_request_btn_pressed-delivered_example =
    send_frien_request_btn_pressed-delivered memory memory-IsFirebase starts_with ann ann_user
      bob_selected (some "bob@x") 7 "r" "ann" "" [] empty-WellFormed matches_ann matches_bob

send_frien_request_btn_pressed-WellFormed_example :
    Returns
      (send_frien_request_btn_pressed memory
        (some ann)
        ann_user
        bob_selected
        7
        "q"
        (record { first = true; second = false; third = true })
        requested)
      (WellFormed memory)
send_frien_request_btn_pressed-WellFormed_example =
    send_frien_request_btn_pressed-WellFormed memory memory-IsFirebase ann ann_user bob_selected 7
      "q" (record { first = true; second = false; third = true }) requested requested-WellFormed

-- the server refuses the removal of the request of the key "r"
abbrev some_removed : Removals
some_removed p = not (is_prefix (friend_request_ref "r") p)

add_userto_friends_btn_pressed-WellFormed_example :
    Returns
      (add_userto_friends_btn_pressed memory
        (some ann)
        ann_user
        bob_selected
        7
        "f"
        (record { first = true; second = false; third = true })
        some_removed
        requested)
      (WellFormed memory)
add_userto_friends_btn_pressed-WellFormed_example =
    add_userto_friends_btn_pressed-WellFormed memory memory-IsFirebase ann ann_user bob_selected 7
      "f" (record { first = true; second = false; third = true }) some_removed requested
      requested-WellFormed

add_userto_friends_btn_pressed-befriended_example :
    Returns
      (add_userto_friends_btn_pressed memory
        (some ann)
        ann_user
        bob_selected
        7
        "f"
        all_accepted
        all_removed
        requested)
      (λ t.
        Ends (get_all_frinds memory starts_with (some ann) "" t) (In bob_users)
        × Ends (get_all_frinds memory starts_with (some bob) "ann" t) (In ann_users))
add_userto_friends_btn_pressed-befriended_example =
    add_userto_friends_btn_pressed-befriended memory memory-IsFirebase starts_with ann ann_user
      bob_selected (some "bob@x") 7 "f" "" "ann" requested requested-WellFormed refl matches_bob
      matches_ann

listed_ann : leaf_of listed (user_friend_request_ref "ann" "bob" ++ ("r" ∷ [])) ≡ some (number 1)
unfolding leaf_of
listed_ann = refl

listed_bob : leaf_of listed (user_friend_request_ref "bob" "ann" ++ ("r" ∷ [])) ≡ some (number 1)
unfolding leaf_of
listed_bob = refl

add_userto_friends_btn_pressed-request_example :
    Returns
      (add_userto_friends_btn_pressed memory
        (some ann)
        ann_user
        bob_selected
        7
        "f"
        all_accepted
        all_removed
        listed)
      (λ t.
        (q : KeyPath)
        → (leaf_of t (friend_request_ref "r" ++ q) ≡ none)
          × ((leaf_of t (user_friend_request_ref "ann" "bob" ++ q) ≡ none)
              × (leaf_of t (user_friend_request_ref "bob" "ann" ++ q) ≡ none)))
add_userto_friends_btn_pressed-request_example =
    add_userto_friends_btn_pressed-request memory memory-IsFirebase ann ann_user bob_selected 7 "f"
      "r" listed listed_ann listed_bob

-- Ann's search finds Bob.
friends_run :
    get_all_frinds memory starts_with (some ann) "b" friends_listed ≡ ok ((bob_users ∷ []) ∷ [])
unfolding get_all_frinds ◌>>=◌ leaf_of keys_of friend_into_db
friends_run = refl

requests_run :
    get_users_who_send_request_to_friends memory starts_with (some ann) "b" listed
    ≡ ok ((bob_users ∷ []) ∷ [])
unfolding get_users_who_send_request_to_friends ◌>>=◌ leaf_of keys_of friend_request_into_db
requests_run = refl
