-- ===== src/App/Service.antt =====
-- Services/DataService.swift: what it writes. A write that the server refuses changes nothing, and the
-- error that the completion block then gets is only printed; `accepted` is the server's answer, and
-- `key` the key that childByAutoId draws.
use flchat.Base.{ℕ, Bool, true, false, Option, none, some, List, [], ◌∷◌, if◌then◌else◌}
use flchat.App.Values.{
  String, Scalar, text, flag, number, Value, scalar, object, Dictionary, KeyPath, Attempt, crash,
  ok, ◌>>=◌,
}
use flchat.App.Database.{Database}
use flchat.App.Models.{Account, User}

-- a user as it stands in a request, a friendship: fromIdUser, toIdUser
abbrev pub UserParams : Type 0
UserParams = List (String × Scalar)

abbrev pub string : String → Value
string s = scalar (text s)

abbrev pub bool : Bool → Value
bool b = scalar (flag b)

abbrev pub double : ℕ → Value
double n = scalar (number n)

abbrev pub change_user_image : String → Dictionary
change_user_image image = ("image", string image) ∷ []

abbrev pub user_data : String → String → String → String → Bool → Bool → Bool → Dictionary
user_data email phone name image online notification_on notification_sound =
    ("phone", string phone)
    ∷ (("name", string name)
        ∷ (("image", string image)
            ∷ (("email", string email)
                ∷ (("online", bool online)
                    ∷ (("notificationOn", bool notification_on)
                        ∷ (("notificationSound", bool notification_sound) ∷ []))))))

abbrev pub change_user_name : String → Dictionary
change_user_name name = ("name", string name) ∷ []

abbrev pub change_user_phone : String → Dictionary
change_user_phone phone = ("phone", string phone) ∷ []

abbrev pub change_usser_notification_sound : Bool → Dictionary
change_usser_notification_sound sound = ("notificationSound", bool sound) ∷ []

abbrev pub change_user_push_notification : Bool → Dictionary
change_user_push_notification push = ("notificationOn", bool push) ∷ []

-- [key: 1]
abbrev pub entry : String → Dictionary
entry key = (key, double 1) ∷ []

abbrev pub users_ref : String → KeyPath
users_ref uid = "users" ∷ (uid ∷ [])

abbrev pub friend_request_ref : String → KeyPath
friend_request_ref key = "friend_request" ∷ (key ∷ [])

abbrev pub user_friend_request_ref : String → String → KeyPath
user_friend_request_ref uid other = "user_friend_request" ∷ (uid ∷ (other ∷ []))

abbrev pub friends_ref : String → KeyPath
friends_ref key = "friends" ∷ (key ∷ [])

abbrev pub user_friends_ref : String → KeyPath
user_friends_ref uid = "user_friends" ∷ (uid ∷ [])

abbrev pub messages_ref : String → KeyPath
messages_ref key = "messages" ∷ (key ∷ [])

abbrev pub users_messages_ref : String → String → KeyPath
users_messages_ref uid other = "users_messages" ∷ (uid ∷ (other ∷ []))

-- (Auth.auth().currentUser?.uid)!
abbrev pub current_uid : Option Account → Attempt String
current_uid none = crash
current_uid (some a) = ok a.uid

-- The server's answers to removals: whether it accepts one at a path.
abbrev pub Removals : Type 0
Removals = KeyPath → Bool

abbrev pub all_removed : Removals
all_removed p = true

module _ (D : Database) where
  open D use {Store, update_child_values, remove_value, keys}

  abbrev pub update : Bool → Store → KeyPath → Dictionary → Store
  update accepted s p d = if accepted then update_child_values s p d else s

  unfoldable pub update_user_into_database_with_uid : Bool → Store → String → Dictionary → Store
  update_user_into_database_with_uid accepted s uid user_data =
      update accepted s (users_ref uid) user_data

  unfoldable pub update_db_image_user : Bool → Store → String → Dictionary → Store
  update_db_image_user accepted s uid user_image = update accepted s (users_ref uid) user_image

  unfoldable pub friend_request_into_db :
      Bool → Store → String → String → UserParams → String → UserParams → ℕ → String → Bool → Store
  friend_request_into_db accepted s key from_id user_from_id to_id user_to_id time msg
        confirm_reques =
      update accepted s (friend_request_ref key) (
        ("fromId", string from_id)
        ∷ (("fromIdUser", object user_from_id)
            ∷ (("toId", string to_id)
                ∷ (("toIdUser", object user_to_id)
                    ∷ (("timeStamp", double time)
                        ∷ (("message", string msg)
                            ∷ (("confirmReques", bool confirm_reques) ∷ [])))))))

  unfoldable pub recipients_user_friend_request_into_db :
      Option Account → Bool → Store → String → String → Attempt Store
  recipients_user_friend_request_into_db me accepted s key to_id = do
    from_id ← current_uid me
    ok (update accepted s (user_friend_request_ref to_id from_id) (entry key))

  unfoldable pub user_friend_request_into_db :
      Option Account → Bool → Store → String → String → Attempt Store
  user_friend_request_into_db me accepted s key to_id = do
    from_id ← current_uid me
    ok (update accepted s (user_friend_request_ref from_id to_id) (entry key))

  unfoldable pub friend_into_db :
      Bool → Store → String → String → UserParams → String → UserParams → ℕ → Bool → Store
  friend_into_db accepted s key from_id user_from_id to_id user_to_id time confirm_reques =
      update accepted s (friends_ref key) (
        ("fromId", string from_id)
        ∷ (("fromIdUser", object user_from_id)
            ∷ (("toId", string to_id)
                ∷ (("toIdUser", object user_to_id)
                    ∷ (("timeStamp", double time)
                        ∷ (("confirmReques", bool confirm_reques) ∷ []))))))

  unfoldable pub recipients_user_friend_into_db : Bool → Store → String → String → Store
  recipients_user_friend_into_db accepted s key uid =
      update accepted s (user_friends_ref uid) (entry key)

  unfoldable pub user_friend_into_db : Option Account → Bool → Store → String → Attempt Store
  user_friend_into_db me accepted s key = do
    uid ← current_uid me
    ok (update accepted s (user_friends_ref uid) (entry key))

  -- A removal, which the server may refuse.
  abbrev pub remove : Removals → Store → KeyPath → Store
  remove removals s p = if removals p then remove_value s p else s

  -- What the inner observer does with each of its keys.
  unfoldable pub remove_requests : Removals → Store → String → String → List String → Store
  remove_requests removals s to_id from_id [] = s
  remove_requests removals s to_id from_id (key ∷ rest) =
      let s₁ = remove removals s (friend_request_ref key) in
      let s₂ = remove removals s₁ (user_friend_request_ref to_id from_id) in
      let s₃ = remove removals s₂ (user_friend_request_ref from_id to_id) in
      remove_requests removals s₃ to_id from_id rest

  -- The outer observer attaches the inner one at each of its keys.
  unfoldable pub remove_for_each : Removals → Store → String → String → List String → Store
  remove_for_each removals s to_id from_id [] = s
  remove_for_each removals s to_id from_id (_ ∷ rest) =
      remove_for_each removals
        (remove_requests removals s to_id from_id (keys s (user_friend_request_ref from_id to_id)))
        to_id from_id rest

  unfoldable pub remove_friend_requests_from_database : Removals → Store → String → String → Store
  remove_friend_requests_from_database removals s to_id from_id =
      remove_for_each removals s to_id from_id (keys s (user_friend_request_ref to_id from_id))

  unfoldable pub change_user_name_into_database_with_uid : Bool → Store → String → String → Store
  unfolding update_user_into_database_with_uid
  change_user_name_into_database_with_uid accepted s uid name =
      update_user_into_database_with_uid accepted s uid (change_user_name name)

  unfoldable pub change_user_phone_into_db_with_uid : Bool → Store → String → String → Store
  unfolding update_user_into_database_with_uid
  change_user_phone_into_db_with_uid accepted s uid phone =
      update_user_into_database_with_uid accepted s uid (change_user_phone phone)

  unfoldable pub change_user_notification_sound_into_database_with_uid :
      Bool → Store → String → Bool → Store
  unfolding update_user_into_database_with_uid
  change_user_notification_sound_into_database_with_uid accepted s uid sound =
      update_user_into_database_with_uid accepted s uid (change_usser_notification_sound sound)

  unfoldable pub change_user_push_notification_into_database_with_uid :
      Bool → Store → String → Bool → Store
  unfolding update_user_into_database_with_uid
  change_user_push_notification_into_database_with_uid accepted s uid push =
      update_user_into_database_with_uid accepted s uid (change_user_push_notification push)

  -- The image is uploaded before; `url` is what downloadURL then gives, none with an error. The
  -- result says which arguments the completion block gets.
  unfoldable pub registration_user_into_db :
      Bool → Store → User → String → String → Option String → Store × Bool
  unfolding update_user_into_database_with_uid
  registration_user_into_db accepted s user uid email none = (s, false)
  registration_user_into_db accepted s user uid email (some url) = (
    update_user_into_database_with_uid accepted s uid (
        user_data email user.phone user.name url user.online user.notification_on
          user.notification_sound_on),
    true,
  )
