-- ===== src/App/Models.antt =====
-- Models/User.swift, Models/Users.swift and Models/Message.swift, and the account that
-- Auth.auth().currentUser gives.
use flchat.Base.{ℕ, Bool, true, Option, none, some}
use flchat.App.Values.{String, Attempt, unwrap}

pub record Account : Type 0 where
  pub uid : String
  pub email : Option String

-- User.instance
pub record User : Type 0 where
  pub name : String
  pub image : String
  pub phone : String
  pub email : String
  pub online : Bool
  pub notification_on : Bool
  pub notification_sound_on : Bool

abbrev pub new_user : User
new_user = record {
  name = "User name";
  image = "User image";
  phone = "User phone";
  email = "User email";
  online = true;
  notification_on = true;
  notification_sound_on = true;
}

unfoldable pub reset_user_settings_to_default : User → User
reset_user_settings_to_default user = record user {
  name = "User name";
  image = "User image";
  phone = "User phone";
  email = "User email";
  online = true;
  notification_on = true;
  notification_sound_on = true;
}

-- Every field of `Users` is optional, and its getter unwraps it; the second initializer gives no id.
pub record Users : Type 0 where
  pub id : Option String
  pub name : Option String
  pub image : Option String
  pub email : Option String
  pub phone : Option String
  pub status : Option Bool

abbrev pub users : String → String → String → String → String → Bool → Users
users id name image email phone status = record {
  id = some id;
  name = some name;
  image = some image;
  email = some email;
  phone = some phone;
  status = some status;
}

abbrev pub users_without_id : String → String → String → String → Bool → Users
users_without_id name image email phone status = record {
  id = none;
  name = some name;
  image = some image;
  email = some email;
  phone = some phone;
  status = some status;
}

abbrev pub user_id : Users → Attempt String
user_id u = unwrap u.id

abbrev pub user_name : Users → Attempt String
user_name u = unwrap u.name

abbrev pub user_image : Users → Attempt String
user_image u = unwrap u.image

abbrev pub user_email : Users → Attempt String
user_email u = unwrap u.email

abbrev pub user_phone : Users → Attempt String
user_phone u = unwrap u.phone

abbrev pub user_status : Users → Attempt Bool
user_status u = unwrap u.status

pub record Message : Type 0 where
  pub from_id : Option String
  pub to_id : Option String
  pub time_stamp : Option ℕ
  pub message : Option String
  pub image : Option String
  pub image_width : Option ℕ
  pub image_height : Option ℕ

abbrev pub new_message : Message
new_message = record {
  from_id = none;
  to_id = none;
  time_stamp = none;
  message = none;
  image = none;
  image_width = none;
  image_height = none;
}
