-- ===== src/App/Account.antt =====
-- Services/DataService.swift (getUserCredentialsFromDatabase), Controllers/LogInVC.swift,
-- Controllers/SettingsVC.swift and UserDefault+Extension.swift: the user's own data, logging in and out.
-- What Auth and the storage answer are arguments.
use flchat.Base.{Bool, true, false, Option, none, some, if◌then◌else◌}
use flchat.App.Values.{String, ◌==◌, Attempt, ok, ◌>>=◌, guard}
use flchat.App.Database.{Database}
use flchat.App.Models.{Account, User, reset_user_settings_to_default}
use flchat.App.Search.{read_string, read_bool}
use flchat.App.Service.{
  current_uid, users_ref, change_user_image, update_user_into_database_with_uid,
  change_user_name_into_database_with_uid, change_user_phone_into_db_with_uid,
  change_user_notification_sound_into_database_with_uid,
  change_user_push_notification_into_database_with_uid,
}

-- What the screens share: Auth.auth().currentUser, the flag isLoggedIn of UserDefaults, and
-- User.instance.
pub record Session : Type 0 where
  pub current_user : Option Account
  pub is_logged_in : Bool
  pub user : User

module _ (D : Database) where
  open D use {Store}

  -- The fields are set one after another; a crash ends the program, so the rest is not seen.
  unfoldable pub get_user_credentials_from_database : Session → Store → Attempt Session
  get_user_credentials_from_database c s = do
    account ← guard c.current_user
    phone ← read_string D s (users_ref account.uid) "phone"
    name ← read_string D s (users_ref account.uid) "name"
    email ← read_string D s (users_ref account.uid) "email"
    image ← read_string D s (users_ref account.uid) "image"
    online ← read_bool D s (users_ref account.uid) "online"
    notification_on ← read_bool D s (users_ref account.uid) "notificationOn"
    notification_sound ← read_bool D s (users_ref account.uid) "notificationSound"
    ok (record c {
      user = record {
        name = name;
        image = image;
        phone = phone;
        email = email;
        online = online;
        notification_on = notification_on;
        notification_sound_on = notification_sound;
      };
    })

-- SettingsVC.checkTextFieldForEpties
abbrev pub check_text_field_for_epties : String → String → String
check_text_field_for_epties text_field default_title =
    if text_field == "" then default_title else text_field

module _ (D : Database) where
  open D use {Store}

  -- The OK of the dialog, with what setUserSettings then reads.
  unfoldable pub change_phone_btn_pressed :
      Bool → String → Session → Store → Attempt (Session × Store)
  unfolding change_user_phone_into_db_with_uid get_user_credentials_from_database
  change_phone_btn_pressed accepted phone c s = do
    uid ← current_uid c.current_user
    let s' =
        change_user_phone_into_db_with_uid D accepted s uid
          (check_text_field_for_epties phone "User phone number")
    c' ← get_user_credentials_from_database D c s'
    ok (c', s')

  unfoldable pub change_name_btn_pressed :
      Bool → String → Session → Store → Attempt (Session × Store)
  unfolding change_user_name_into_database_with_uid get_user_credentials_from_database
  change_name_btn_pressed accepted name c s = do
    uid ← current_uid c.current_user
    let s' =
        change_user_name_into_database_with_uid D accepted s uid
          (check_text_field_for_epties name "User name")
    c' ← get_user_credentials_from_database D c s'
    ok (c', s')

  unfoldable pub push_notification_sound_btn_pressed :
      Bool → Bool → Session → Store → Attempt (Session × Store)
  unfolding change_user_notification_sound_into_database_with_uid get_user_credentials_from_database
  push_notification_sound_btn_pressed accepted sound_on c s = do
    uid ← current_uid c.current_user
    let s' = change_user_notification_sound_into_database_with_uid D accepted s uid sound_on
    c' ← get_user_credentials_from_database D c s'
    ok (c', s')

  unfoldable pub push_notification_btn_pressed :
      Bool → Bool → Session → Store → Attempt (Session × Store)
  unfolding change_user_push_notification_into_database_with_uid get_user_credentials_from_database
  push_notification_btn_pressed accepted push_on c s = do
    uid ← current_uid c.current_user
    let s' = change_user_push_notification_into_database_with_uid D accepted s uid push_on
    c' ← get_user_credentials_from_database D c s'
    ok (c', s')

  -- `url` is what downloadURL gives after the upload.
  unfoldable pub upload_new_user_image_into_db :
      Bool → Option String → Session → Store → Attempt (Session × Store)
  unfolding update_user_into_database_with_uid get_user_credentials_from_database
  upload_new_user_image_into_db accepted url c s = do
    uid ← current_uid c.current_user
    elim url [
      | none ↦ ok (c, s)
      | some url ↦
          let s' = update_user_into_database_with_uid D accepted s uid (change_user_image url) in
          get_user_credentials_from_database D c s' >>= λ c'. ok (c', s')
    ]

-- `signed_out` is false where Auth throws.
unfoldable pub sign_out_pressed : Bool → Session → Session
unfolding reset_user_settings_to_default
sign_out_pressed false c = c
sign_out_pressed true c = record {
  current_user = none;
  is_logged_in = false;
  user = reset_user_settings_to_default c.user;
}
