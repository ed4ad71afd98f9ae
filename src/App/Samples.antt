-- ===== src/App/Samples.antt =====
-- Users and small databases for the runs of the application's code.
use package.text.Mathlib.Text.{starts_with}
use flchat.Base.{◌≡◌, refl, true, false, some, [], ◌∷◌}
use flchat.App.Values.{text}
use flchat.App.Models.{Account, User, Users, new_user, users}
use flchat.App.Memory.{memory, memory-IsFirebase, leaf_of}
use flchat.App.Service.{
  user_friend_request_ref, user_friends_ref, friend_request_into_db, friend_into_db, entry,
}
use flchat.App.Search.{matches}
use flchat.App.Requests.{Selected}
use flchat.App.WellFormed.{WellFormed}
use flchat.App.Kept.{
  WellFormed-update, WellFormed-friend_request_into_db, WellFormed-friend_into_db, params_of,
}
use flchat.App.Delivery.{own_fields, selected_fields}

abbrev pub ann : Account
ann = record { uid = "ann"; email = some "ann@x" }

abbrev pub bob : Account
bob = record { uid = "bob"; email = some "bob@x" }

abbrev pub ann_user : User
ann_user = record new_user { name = "Ann"; email = "ann@x" }

abbrev pub bob_selected : Selected
bob_selected = record {
  uid = "bob";
  name = "Bob";
  email = "bob@x";
  phone = "2";
  status = true;
  url_image = "bob.png";
}

abbrev pub bob_users : Users
bob_users = users "bob" "Bob" "bob.png" "bob@x" "2" true

abbrev pub ann_users : Users
ann_users = users "ann" "Ann" "User image" "ann@x" "User phone" true

-- a request of Bob to Ann, and a friendship of both
abbrev pub requested : memory.Store
requested =
    friend_request_into_db memory true [] "r" "bob" (params_of (selected_fields bob_selected)) "ann"
      (params_of (own_fields "ann" ann_user)) 7 "Hi" false

abbrev pub befriended : memory.Store
befriended =
    friend_into_db memory true [] "f" "bob" (params_of (selected_fields bob_selected)) "ann"
      (params_of (own_fields "ann" ann_user)) 7 true

pub empty-WellFormed : WellFormed memory []
unfolding leaf_of
empty-WellFormed = record {
  senders = λ key k q x h. absurd (cc h);
  recipients = λ key k q x h. absurd (cc h);
  friends_from = λ key k q x h. absurd (cc h);
  friends_to = λ key k q x h. absurd (cc h);
}

pub requested-WellFormed : WellFormed memory requested
requested-WellFormed =
    WellFormed-friend_request_into_db memory memory-IsFirebase true [] "r" "bob" "ann"
      (selected_fields bob_selected) (own_fields "ann" ann_user) 7 "Hi" false empty-WellFormed

pub befriended-WellFormed : WellFormed memory befriended
befriended-WellFormed =
    WellFormed-friend_into_db memory memory-IsFirebase true [] "f" "bob" "ann"
      (selected_fields bob_selected) (own_fields "ann" ann_user) 7 true empty-WellFormed

-- Bob's request to Ann, in both lists
abbrev pub listed : memory.Store
listed =
    memory.update_child_values
      (memory.update_child_values requested (user_friend_request_ref "ann" "bob") (entry "r"))
      (user_friend_request_ref "bob" "ann") (entry "r")

pub listed-WellFormed : WellFormed memory listed
listed-WellFormed =
    WellFormed-update memory memory-IsFirebase true _ "user_friend_request" ("bob" ∷ ("ann" ∷ []))
      (entry "r") refl refl
      (WellFormed-update memory memory-IsFirebase true requested "user_friend_request"
        ("ann" ∷ ("bob" ∷ [])) (entry "r") refl refl requested-WellFormed)

-- The friendship of Bob and Ann, in Ann's list.
abbrev pub friends_listed : memory.Store
friends_listed = memory.update_child_values befriended (user_friends_ref "ann") (entry "f")

pub friends_listed-WellFormed : WellFormed memory friends_listed
friends_listed-WellFormed =
    WellFormed-update memory memory-IsFirebase true befriended "user_friends" ("ann" ∷ [])
      (entry "f") refl refl befriended-WellFormed

pub matches_ann : matches starts_with (some bob) "ann" "ann@x" ≡ true
unfolding matches
matches_ann = refl

pub matches_bob : matches starts_with (some ann) "" "bob@x" ≡ true
unfolding matches
matches_bob = refl
