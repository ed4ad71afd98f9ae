-- ===== src/App/Requests.antt =====
-- Controllers/SelectNewUserFriendVC.swift and Controllers/SelectAllRequestVC.swift: the buttons that
-- send a request and accept one. Each step runs in the completion block of the one before; `answers`
-- are the server's answers to the three writes.
use flchat.Base.{ℕ, Bool, true, false, Option, [], ◌∷◌}
use flchat.App.Values.{String, text, flag, Attempt, ok, ◌>>=◌}
use flchat.App.Database.{Database}
use flchat.App.Models.{
  Account, User, Users, user_id, user_name, user_image, user_email, user_phone, user_status,
}
use flchat.App.Service.{
  UserParams, current_uid, friend_request_into_db, user_friend_request_into_db,
  recipients_user_friend_request_into_db, friend_into_db, user_friend_into_db, Removals,
  recipients_user_friend_into_db, remove_friend_requests_from_database,
}

-- The fields that initData sets.
pub record Selected : Type 0 where
  pub uid : String
  pub name : String
  pub email : String
  pub phone : String
  pub status : Bool
  pub url_image : String

-- A tap on a user. `loaded` is how the download of the picture ends: by a crash without data, and by
-- the guard's return where the data is no image.
unfoldable pub did_select_item : Attempt (Unit {0}) → Users → Attempt Selected
did_select_item loaded u = do
  uid ← user_id u
  name ← user_name u
  image ← user_image u
  email ← user_email u
  phone ← user_phone u
  status ← user_status u
  _ ← loaded
  ok (record {
    uid = uid;
    name = name;
    email = email;
    phone = phone;
    status = status;
    url_image = image;
  })

abbrev pub selected_params : Selected → UserParams
selected_params u =
    ("uid", text u.uid)
    ∷ (("name", text u.name)
        ∷ (("image", text u.url_image)
            ∷ (("email", text u.email)
                ∷ (("phone", text u.phone) ∷ (("online", flag u.status) ∷ [])))))

abbrev pub own_params : String → User → UserParams
own_params uid user =
    ("uid", text uid)
    ∷ (("name", text user.name)
        ∷ (("image", text user.image)
            ∷ (("email", text user.email)
                ∷ (("phone", text user.phone) ∷ (("online", flag user.online) ∷ [])))))

pub record Answers : Type 0 where
  pub first : Bool
  pub second : Bool
  pub third : Bool

module _ (D : Database) where
  open D use {Store}

  unfoldable pub send_frien_request_btn_pressed :
      Option Account → User → Selected → ℕ → String → Answers → Store → Attempt Store
  unfolding friend_request_into_db user_friend_request_into_db
      recipients_user_friend_request_into_db
  send_frien_request_btn_pressed me user selected time key answers s = do
    from_id ← current_uid me
    let s₁ =
        friend_request_into_db D answers.first s key from_id (own_params from_id user) selected.uid
          (selected_params selected) time "Hi! I want to be your friend" false
    s₂ ← user_friend_request_into_db D me answers.second s₁ key selected.uid
    recipients_user_friend_request_into_db D me answers.third s₂ key selected.uid

  unfoldable pub add_userto_friends_btn_pressed :
      Option Account → User → Selected → ℕ → String → Answers → Removals → Store → Attempt Store
  unfolding friend_into_db user_friend_into_db recipients_user_friend_into_db
      remove_friend_requests_from_database
  add_userto_friends_btn_pressed me user selected time key answers removals s = do
    to_id ← current_uid me
    let s₁ =
        friend_into_db D answers.first s key selected.uid (selected_params selected) to_id
          (own_params to_id user) time true
    s₂ ← user_friend_into_db D me answers.second s₁ key
    let s₃ = recipients_user_friend_into_db D answers.third s₂ key selected.uid
    ok (remove_friend_requests_from_database D removals s₃ to_id selected.uid)
