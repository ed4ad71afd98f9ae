-- ===== src/App/Registered.antt =====
-- Making an account, and the users that the search for new friends finds.
use flchat.Base.{
  ◌≡◌, refl, subst, ◌≤◌, ℕ, inl, inr, Bool, true, false, leb, leb→le, ◌&&◌, ◌||◌, Option, none,
  some, List, [], ◌∷◌, ◌++◌, arith, Bool-cases, if◌then◌else◌,
}
use flchat.App.Values.{String, ◌==◌, KeyPath, crash, ok, ◌>>=◌}
use flchat.App.Database.{Database, IsFirebase}
use flchat.App.Models.{Account, User, new_user, Users, users}
use flchat.App.Service.{
  users_ref, user_data, string, bool, registration_user_into_db, update_user_into_database_with_uid,
}
use flchat.App.Search.{not_own, matches, search_user, get_users_from_database}
use flchat.App.Account.{Session, get_user_credentials_from_database}
use flchat.App.LogIn.{
  AuthAnswer, signed_in, home, login_btn_pressed, registrate_user_and_log_in, custom_errors_yes,
  sign, facebook_auth,
}
use flchat.App.Settings.{SettingsAt, get_user_credentials-SettingsAt}
use flchat.App.Kept.{update-under}

-- the user that an account is made with
abbrev pub registered : User → String → String → User
registered user email url = record user { email = email; image = url }

module _ (D : Database) (laws : IsFirebase D) where
  open D use {Store, leaf, update_child_values}

  registered-SettingsAt :
      (s : Store) (uid email url : String) (u : User)
      → SettingsAt D
          (update_child_values s
            (users_ref uid)
            (user_data email u.phone u.name url u.online u.notification_on u.notification_sound_on))
          uid
          (registered u email url)
  registered-SettingsAt s uid email url u = record {
    at_phone = update-under D laws s (users_ref uid) _ "phone" (string u.phone) [] refl;
    at_name = update-under D laws s (users_ref uid) _ "name" (string u.name) [] refl;
    at_email = update-under D laws s (users_ref uid) _ "email" (string email) [] refl;
    at_image = update-under D laws s (users_ref uid) _ "image" (string url) [] refl;
    at_online = update-under D laws s (users_ref uid) _ "online" (bool u.online) [] refl;
    at_notification_on =
        update-under D laws s (users_ref uid) _ "notificationOn" (bool u.notification_on) [] refl;
    at_notification_sound =
        update-under D laws s (users_ref uid) _ "notificationSound" (bool u.notification_sound_on)
          [] refl;
  }

  -- An account that is made, with an email and an uploaded picture, where the server accepts the write,
  -- shows the home screen; a later log-in with that account, from any session, then returns, shows the home
  -- screen, and has the data that the account was made with, its email and its picture.
  pub registrate_user_and_log_in-login :
      (uid email url : String) (c later : Session) (s : Store)
      → (c' : Session) × ((t : Store) × ((registrate_user_and_log_in D true
                (some url)
                (signed_in (record { uid = uid; email = some email }))
                c
                s
              ≡ ok (c', (t, home)))
            × (login_btn_pressed D (signed_in (record { uid = uid; email = some email })) later t
                ≡ ok (
                  record {
                    current_user = some (record { uid = uid; email = some email });
                    is_logged_in = true;
                    user = registered c.user email url;
                  },
                  home,
                ))))
  unfolding registrate_user_and_log_in registration_user_into_db update_user_into_database_with_uid
      login_btn_pressed ◌>>=◌
  registrate_user_and_log_in-login uid email url c later s = (
    _,
    (
      _,
      (
        refl,
        rw
            (get_user_credentials-SettingsAt D (record { uid = uid; email = some email }) true
              later.user (registered c.user email url) _
              (registered-SettingsAt s uid email url c.user))
            refl,
      ),
    ),
  )

  -- A log-in with Facebook from a session whose user has the defaults, as after a log-out, with an email
  -- and an uploaded picture, where the server accepts the write, shows the home screen and leaves the
  -- defaults in the user's record, with that email and picture, whatever stood in it before.
  pub facebook_auth-resets :
      (uid email url : String) (c : Session) (s : Store)
      → c.user ≡ new_user
      → (c' : Session) × ((t : Store) × ((facebook_auth D true
                (some url)
                (signed_in (record { uid = uid; email = some email }))
                c
                s
              ≡ ok (c', (t, home)))
            × SettingsAt D t uid (registered new_user email url)))
  unfolding facebook_auth registration_user_into_db update_user_into_database_with_uid ◌>>=◌
  facebook_auth-resets uid email url c s e =
      let t : Store = update_child_values s (users_ref uid) (
        user_data email c.user.phone c.user.name url c.user.online c.user.notification_on
          c.user.notification_sound_on) in
      let written = registered-SettingsAt s uid email url c.user in
      (_, (t, (refl, subst (λ (u : User). SettingsAt D t uid (registered u email url)) e written)))

  -- A log-in with Google of a user that has no record in the database does not make one: it crashes, where
  -- the user's data are read.
  pub sign-unregistered :
      (accepted : Bool) (url : Option String) (uid email : String) (c : Session) (s : Store)
      → ((q : KeyPath) → leaf s (users_ref uid ++ q) ≡ none)
      → sign D accepted url (signed_in (record { uid = uid; email = some email })) c s ≡ crash
  unfolding sign get_user_credentials_from_database ◌>>=◌
  sign-unregistered accepted url uid email c s h = rw (h ("phone" ∷ [])) refl

  -- Where the question whether to make an account is answered with yes and the home screen is shown, the
  -- password and the email have at least 6 characters.
  pub custom_errors_yes-long :
      (count : String → ℕ) (email password : String) (accepted : Bool) (url : Option String)
      (answer : AuthAnswer) (c c' : Session) (s t : Store)
      → custom_errors_yes D count email password accepted url answer c s ≡ ok (c', (t, home))
      → (6 ≤ count password) × (6 ≤ count email)
  unfolding custom_errors_yes
  custom_errors_yes-long count email password accepted url answer c c' s t h =
      elim (Bool-cases (leb 6 (count password))) [
        | inl p ↦ elim (Bool-cases (leb 6 (count email))) [
          | inl e ↦ (leb→le 6 (count password) p, leb→le 6 (count email) e)
          | inr e ↦ absurd (ground (arith, p, e, h))
        ]
        | inr p ↦ absurd (ground (arith, p, h))
      ]

matches-lem :
    (includes : String → String → Bool) (me : Option Account) (query email : String)
    → matches includes me query email ≡ (not_own me email && (query == "" || includes email query))
unfolding matches
matches-lem includes me query email =
    by_cases (query == "") (includes email query) (not_own me email)
  where
    by_cases :
        (q i o : Bool)
        → (if q then (if o then true else false) else (if i && o then true else false))
          ≡ (o && (q || i))
    by_cases true true true = refl
    by_cases true true false = refl
    by_cases true false true = refl
    by_cases true false false = refl
    by_cases false true true = refl
    by_cases false true false = refl
    by_cases false false true = refl
    by_cases false false false = refl

module _ (includes : String → String → Bool) (me : Option Account) (query : String) where
  -- the users that match, of those that are given with their ids
  unfoldable pub matching : List (String × User) → List Users
  matching [] = []
  matching ((id, u) ∷ rest) =
      if not_own me u.email && (query == "" || includes u.email query)
      then users id u.name u.image u.email u.phone u.online ∷ matching rest
      else matching rest

abbrev ids : List (String × User) → List String
ids [] = []
ids ((id, u) ∷ rest) = id ∷ ids rest

abbrev AllAt : (D : Database) → D.Store → List (String × User) → Type 0
AllAt D s [] = Unit
AllAt D s ((id, u) ∷ rest) = SettingsAt D s id u × AllAt D s rest

module _ (D : Database) (includes : String → String → Bool) (me : Option Account)
    (query : String) where
  open D use {Store, keys}

  search_user-matching :
      (s : Store) (l : List (String × User))
      → AllAt D s l
      → search_user D includes me query s (ids l) ≡ ok (matching includes me query l)
  unfolding search_user matching ◌>>=◌
  search_user-matching s [] h = refl
  search_user-matching s ((id, u) ∷ rest) (at, h) =
      rw
        (
          at.at_name,
          at.at_image,
          at.at_email,
          at.at_phone,
          at.at_online,
          search_user-matching s rest h,
          matches-lem includes me query u.email,
        )
        refl

  -- On a database whose users are the given ones, in this order and whole, the search for new friends ends
  -- without a crash, and finds, in the same order, the users whose email is not the user's own and,
  -- where the query is not empty, contains it.
  pub get_users_from_database-matching :
      (s : Store) (l : List (String × User))
      → keys s ("users" ∷ []) ≡ ids l
      → AllAt D s l
      → get_users_from_database D includes me query s ≡ ok (matching includes me query l)
  unfolding get_users_from_database
  get_users_from_database-matching s l e h = rw e (search_user-matching s l h)
