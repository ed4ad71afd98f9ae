-- ===== src/App/Settings.antt =====
-- The user's settings: what a change writes is what the screen then reads, and nothing else changes.
use flchat.Base.{
  ◌≡◌, refl, ◌∙◌, Bool, true, false, Option, none, some, [], ◌∷◌, ◌++◌, if◌then◌else◌,
}
use flchat.App.Values.{String, ◌==◌, eq_iff, Scalar, text, flag, scalar, Value, Attempt, ok, ◌>>=◌}
use flchat.App.Database.{Database, IsFirebase}
use flchat.App.Models.{Account, User}
use flchat.App.Service.{
  users_ref, update, string, bool, update_user_into_database_with_uid,
  change_user_name_into_database_with_uid, change_user_phone_into_db_with_uid,
  change_user_notification_sound_into_database_with_uid,
  change_user_push_notification_into_database_with_uid,
}
use flchat.App.Account.{
  Session, get_user_credentials_from_database, check_text_field_for_epties, change_name_btn_pressed,
  change_phone_btn_pressed, push_notification_sound_btn_pressed, push_notification_btn_pressed,
  upload_new_user_image_into_db,
}
use flchat.App.Kept.{update-under, update-missing}

-- The changes that the settings screen offers; an image comes with what the storage answers.
pub data Change : Type 0 where
  new_name : String → Change
  new_phone : String → Change
  new_sound : Bool → Change
  new_push : Bool → Change
  new_image : Option String → Change

unfoldable pub asked : Change → User → User
asked (new_name n) u = record u { name = if n == "" then "User name" else n }
asked (new_phone n) u = record u { phone = if n == "" then "User phone number" else n }
asked (new_sound b) u = record u { notification_sound_on = b }
asked (new_push b) u = record u { notification_on = b }
asked (new_image none) u = u
asked (new_image (some url)) u = record u { image = url }

unfoldable pub press :
    (D : Database) → Change → Bool → Session → D.Store → Attempt (Session × D.Store)
unfolding change_name_btn_pressed change_phone_btn_pressed push_notification_sound_btn_pressed
    push_notification_btn_pressed upload_new_user_image_into_db
press D (new_name n) accepted c s = change_name_btn_pressed D accepted n c s
press D (new_phone n) accepted c s = change_phone_btn_pressed D accepted n c s
press D (new_sound b) accepted c s = push_notification_sound_btn_pressed D accepted b c s
press D (new_push b) accepted c s = push_notification_btn_pressed D accepted b c s
press D (new_image url) accepted c s = upload_new_user_image_into_db D accepted url c s

module _ (D : Database) where
  open D use {Store, leaf, keys}

  -- the record of a user in the database
  pub record SettingsAt (s : Store) (uid : String) (u : User) : Type 0 where
    pub at_phone : leaf s (users_ref uid ++ ("phone" ∷ [])) ≡ some (text u.phone)
    pub at_name : leaf s (users_ref uid ++ ("name" ∷ [])) ≡ some (text u.name)
    pub at_email : leaf s (users_ref uid ++ ("email" ∷ [])) ≡ some (text u.email)
    pub at_image : leaf s (users_ref uid ++ ("image" ∷ [])) ≡ some (text u.image)
    pub at_online : leaf s (users_ref uid ++ ("online" ∷ [])) ≡ some (flag u.online)
    pub at_notification_on :
        leaf s (users_ref uid ++ ("notificationOn" ∷ [])) ≡ some (flag u.notification_on)
    pub at_notification_sound :
        leaf s (users_ref uid ++ ("notificationSound" ∷ [])) ≡ some (flag u.notification_sound_on)

  pub get_user_credentials-SettingsAt :
      (a : Account) (logged : Bool) (old u : User) (s : Store)
      → SettingsAt s a.uid u
      → get_user_credentials_from_database D
          (record { current_user = some a; is_logged_in = logged; user = old })
          s
        ≡ ok (record { current_user = some a; is_logged_in = logged; user = u })
  unfolding get_user_credentials_from_database ◌>>=◌
  get_user_credentials-SettingsAt a logged old u s h =
      rw
        (
          h.at_phone, h.at_name, h.at_email, h.at_image, h.at_online, h.at_notification_on,
          h.at_notification_sound,
        )
        refl

module _ (D : Database) (laws : IsFirebase D) where
  open D use {Store, leaf, keys, update_child_values}

  -- a change of one field, in the record of the user
  changed : Bool → String → Value → Store → String → Store
  changed accepted name v s uid = update D accepted s (users_ref uid) ((name, v) ∷ [])

  changed-same :
      (accepted : Bool) (name : String) (v : Value) (s : Store) (uid k : String)
      → (name == k) ≡ false
      → leaf (changed accepted name v s uid) (users_ref uid ++ (k ∷ []))
        ≡ leaf s (users_ref uid ++ (k ∷ []))
  unfolding changed
  changed-same true name v s uid k h =
      update-missing D laws s (users_ref uid) ((name, v) ∷ []) k [] (rw h refl)
  changed-same false name v s uid k h = refl

  changed-new :
      (name : String) (x : Scalar) (s : Store) (uid : String)
      → leaf (changed true name (scalar x) s uid) (users_ref uid ++ (name ∷ [])) ≡ some x
  unfolding changed
  changed-new name x s uid =
      update-under D laws s (users_ref uid) ((name, scalar x) ∷ []) name (scalar x) []
        (rw ((eq_iff name name).1 refl) refl)

  phone-SettingsAt :
      (s : Store) (uid : String) (phone : String) (u : User)
      → SettingsAt D s uid u
      → SettingsAt D (changed true "phone" (string phone) s uid) uid (record u { phone = phone })
  phone-SettingsAt s uid phone u h = record {
    at_phone = changed-new "phone" (text phone) s uid;
    at_name = changed-same true "phone" _ s uid "name" refl ∙ h.at_name;
    at_email = changed-same true "phone" _ s uid "email" refl ∙ h.at_email;
    at_image = changed-same true "phone" _ s uid "image" refl ∙ h.at_image;
    at_online = changed-same true "phone" _ s uid "online" refl ∙ h.at_online;
    at_notification_on =
        changed-same true "phone" _ s uid "notificationOn" refl ∙ h.at_notification_on;
    at_notification_sound =
        changed-same true "phone" _ s uid "notificationSound" refl ∙ h.at_notification_sound;
  }

  name-SettingsAt :
      (s : Store) (uid : String) (name : String) (u : User)
      → SettingsAt D s uid u
      → SettingsAt D (changed true "name" (string name) s uid) uid (record u { name = name })
  name-SettingsAt s uid name u h = record {
    at_phone = changed-same true "name" _ s uid "phone" refl ∙ h.at_phone;
    at_name = changed-new "name" (text name) s uid;
    at_email = changed-same true "name" _ s uid "email" refl ∙ h.at_email;
    at_image = changed-same true "name" _ s uid "image" refl ∙ h.at_image;
    at_online = changed-same true "name" _ s uid "online" refl ∙ h.at_online;
    at_notification_on =
        changed-same true "name" _ s uid "notificationOn" refl ∙ h.at_notification_on;
    at_notification_sound =
        changed-same true "name" _ s uid "notificationSound" refl ∙ h.at_notification_sound;
  }

  image-SettingsAt :
      (s : Store) (uid : String) (image : String) (u : User)
      → SettingsAt D s uid u
      → SettingsAt D (changed true "image" (string image) s uid) uid (record u { image = image })
  image-SettingsAt s uid image u h = record {
    at_phone = changed-same true "image" _ s uid "phone" refl ∙ h.at_phone;
    at_name = changed-same true "image" _ s uid "name" refl ∙ h.at_name;
    at_email = changed-same true "image" _ s uid "email" refl ∙ h.at_email;
    at_image = changed-new "image" (text image) s uid;
    at_online = changed-same true "image" _ s uid "online" refl ∙ h.at_online;
    at_notification_on =
        changed-same true "image" _ s uid "notificationOn" refl ∙ h.at_notification_on;
    at_notification_sound =
        changed-same true "image" _ s uid "notificationSound" refl ∙ h.at_notification_sound;
  }

  push-SettingsAt :
      (s : Store) (uid : String) (push_on : Bool) (u : User)
      → SettingsAt D s uid u
      → SettingsAt D
          (changed true "notificationOn" (bool push_on) s uid)
          uid
          (record u { notification_on = push_on })
  push-SettingsAt s uid push_on u h = record {
    at_phone = changed-same true "notificationOn" _ s uid "phone" refl ∙ h.at_phone;
    at_name = changed-same true "notificationOn" _ s uid "name" refl ∙ h.at_name;
    at_email = changed-same true "notificationOn" _ s uid "email" refl ∙ h.at_email;
    at_image = changed-same true "notificationOn" _ s uid "image" refl ∙ h.at_image;
    at_online = changed-same true "notificationOn" _ s uid "online" refl ∙ h.at_online;
    at_notification_on = changed-new "notificationOn" (flag push_on) s uid;
    at_notification_sound =
        changed-same true "notificationOn" _ s uid "notificationSound" refl
        ∙ h.at_notification_sound;
  }

  sound-SettingsAt :
      (s : Store) (uid : String) (sound_on : Bool) (u : User)
      → SettingsAt D s uid u
      → SettingsAt D
          (changed true "notificationSound" (bool sound_on) s uid)
          uid
          (record u { notification_sound_on = sound_on })
  sound-SettingsAt s uid sound_on u h = record {
    at_phone = changed-same true "notificationSound" _ s uid "phone" refl ∙ h.at_phone;
    at_name = changed-same true "notificationSound" _ s uid "name" refl ∙ h.at_name;
    at_email = changed-same true "notificationSound" _ s uid "email" refl ∙ h.at_email;
    at_image = changed-same true "notificationSound" _ s uid "image" refl ∙ h.at_image;
    at_online = changed-same true "notificationSound" _ s uid "online" refl ∙ h.at_online;
    at_notification_on =
        changed-same true "notificationSound" _ s uid "notificationOn" refl ∙ h.at_notification_on;
    at_notification_sound = changed-new "notificationSound" (flag sound_on) s uid;
  }

  -- Where the user's record is whole, each change of the settings returns, and its record stays whole:
  -- the session then has what the change asks for, with the default in place of an empty name or
  -- telephone number, and otherwise what the record holds, which is the session's user. Where the
  -- server refuses the change, or the picture's upload gives no address, the record stays as it is.
  pub press-SettingsAt :
      (change : Change) (accepted : Bool) (a : Account) (logged : Bool) (u : User) (s : Store)
      → SettingsAt D s a.uid u
      → (t : Store) × ((v : User) × ((press D change accepted
                (record { current_user = some a; is_logged_in = logged; user = u })
                s
              ≡ ok (record { current_user = some a; is_logged_in = logged; user = v }, t))
            × (SettingsAt D t a.uid v × (v ≡ (if accepted then asked change u else u)))))
  unfolding press asked change_name_btn_pressed change_phone_btn_pressed
      push_notification_sound_btn_pressed push_notification_btn_pressed
      upload_new_user_image_into_db change_user_name_into_database_with_uid
      change_user_phone_into_db_with_uid change_user_notification_sound_into_database_with_uid
      change_user_push_notification_into_database_with_uid update_user_into_database_with_uid ◌>>=◌
      changed
  press-SettingsAt (new_name n) true a logged u s h =
      let kept = name-SettingsAt s a.uid (check_text_field_for_epties n "User name") u h in
      (_, (_, (rw (get_user_credentials-SettingsAt D a logged u _ _ kept) refl, (kept, refl))))
  press-SettingsAt (new_name n) false a logged u s h =
      (s, (u, (rw (get_user_credentials-SettingsAt D a logged u u s h) refl, (h, refl))))
  press-SettingsAt (new_phone n) true a logged u s h =
      let kept = phone-SettingsAt s a.uid (check_text_field_for_epties n "User phone number") u h in
      (_, (_, (rw (get_user_credentials-SettingsAt D a logged u _ _ kept) refl, (kept, refl))))
  press-SettingsAt (new_phone n) false a logged u s h =
      (s, (u, (rw (get_user_credentials-SettingsAt D a logged u u s h) refl, (h, refl))))
  press-SettingsAt (new_sound b) true a logged u s h =
      let kept = sound-SettingsAt s a.uid b u h in
      (_, (_, (rw (get_user_credentials-SettingsAt D a logged u _ _ kept) refl, (kept, refl))))
  press-SettingsAt (new_sound b) false a logged u s h =
      (s, (u, (rw (get_user_credentials-SettingsAt D a logged u u s h) refl, (h, refl))))
  press-SettingsAt (new_push b) true a logged u s h =
      let kept = push-SettingsAt s a.uid b u h in
      (_, (_, (rw (get_user_credentials-SettingsAt D a logged u _ _ kept) refl, (kept, refl))))
  press-SettingsAt (new_push b) false a logged u s h =
      (s, (u, (rw (get_user_credentials-SettingsAt D a logged u u s h) refl, (h, refl))))
  press-SettingsAt (new_image (some url)) true a logged u s h =
      let kept = image-SettingsAt s a.uid url u h in
      (_, (_, (rw (get_user_credentials-SettingsAt D a logged u _ _ kept) refl, (kept, refl))))
  press-SettingsAt (new_image (some url)) false a logged u s h =
      (s, (u, (rw (get_user_credentials-SettingsAt D a logged u u s h) refl, (h, refl))))
  press-SettingsAt (new_image none) true a logged u s h = (s, (u, (refl, (h, refl))))
  press-SettingsAt (new_image none) false a logged u s h = (s, (u, (refl, (h, refl))))
