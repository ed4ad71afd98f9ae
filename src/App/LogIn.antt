-- ===== src/App/LogIn.antt =====
-- Controllers/LogInVC.swift and AppDelegate.sign: logging in, with the account that Auth answers with or
-- its message, and making an account. `count` is the number of characters of a text, and `url` what
-- downloadURL of the storage answers, none with an error.
use flchat.Base.{ℕ, Bool, true, false, Option, none, some, leb, if◌then◌else◌}
use flchat.App.Values.{String, ◌==◌, Attempt, ok, ◌>>=◌, unwrap}
use flchat.App.Database.{Database}
use flchat.App.Models.{Account}
use flchat.App.Service.{registration_user_into_db}
use flchat.App.Account.{Session, get_user_credentials_from_database}

pub data AuthAnswer : Type 0 where
  failed : String → AuthAnswer
  signed_in : Account → AuthAnswer

-- What the screen then shows: the home screen, an alert, the question whether to make an account, or
-- the log-in screen as before.
pub data Shown : Type 0 where
  home : Shown
  standart_errors : String → Shown
  custom_errors : String → Shown
  unchanged : Shown

abbrev not_find_this_user : String
not_find_this_user =
    "There is no user record corresponding to this identifier. The user may have been deleted."

-- LoginVC.viewDidAppear
unfoldable pub view_did_appear : Session → Shown
view_did_appear c = if c.is_logged_in then home else unchanged

module _ (D : Database) where
  open D use {Store}

  abbrev signed : Session → Account → Session
  signed c a = record c { current_user = some a; is_logged_in = true }

  unfoldable pub login_btn_pressed : AuthAnswer → Session → Store → Attempt (Session × Shown)
  unfolding get_user_credentials_from_database
  login_btn_pressed (failed message) c s =
      ok (
        c,
        if message == not_find_this_user then custom_errors message else standart_errors message,
      )
  login_btn_pressed (signed_in a) c s = do
    c' ← get_user_credentials_from_database D (signed c a) s
    ok (c', home)

  abbrev after_registration : Session → Store × Bool → Session × (Store × Shown)
  after_registration c (s, true) = (c, (s, home))
  after_registration c (s, false) = (c, (s, unchanged))

  -- The account of the answer is the current one.
  unfoldable pub registrate_user_and_log_in :
      Bool → Option String → AuthAnswer → Session → Store → Attempt (Session × (Store × Shown))
  unfolding registration_user_into_db
  registrate_user_and_log_in accepted url (failed message) c s =
      ok (c, (s, standart_errors message))
  registrate_user_and_log_in accepted url (signed_in a) c s = do
    email ← unwrap a.email
    ok (
        after_registration (signed c a)
          (registration_user_into_db D accepted s c.user a.uid email url))

  unfoldable pub facebook_auth :
      Bool → Option String → AuthAnswer → Session → Store → Attempt (Session × (Store × Shown))
  unfolding registration_user_into_db
  facebook_auth accepted url (failed message) c s = ok (c, (s, standart_errors message))
  facebook_auth accepted url (signed_in a) c s = do
    email ← unwrap a.email
    ok (
        after_registration (signed c a)
          (registration_user_into_db D accepted s c.user a.uid email url))

  -- The answer Yes to the question whether to make an account.
  unfoldable pub custom_errors_yes :
      (String → ℕ)
      → String
      → String
      → Bool
      → Option String
      → AuthAnswer
      → Session
      → Store
      → Attempt (Session × (Store × Shown))
  unfolding registrate_user_and_log_in
  custom_errors_yes count email password accepted url answer c s =
      if leb 6 (count password)
      then if leb 6 (count email)
        then registrate_user_and_log_in accepted url answer c s
        else ok (c, (s, standart_errors "The email must be 6 characters long or more."))
      else ok (c, (s, standart_errors "The password must be 6 characters long or more."))

  -- AppDelegate.sign, from the answer of Auth on. The branch for a missing user is behind the unwrapping
  -- of that user.
  unfoldable pub sign :
      Bool → Option String → AuthAnswer → Session → Store → Attempt (Session × (Store × Shown))
  unfolding registration_user_into_db get_user_credentials_from_database
  sign accepted url (failed message) c s = ok (c, (s, unchanged))
  sign accepted url (signed_in a) c s = do
    let c' = signed c a
    uid ← unwrap (elim c'.current_user [ none ↦ none | some b ↦ some b.uid ])
    email ← unwrap a.email
    elim c'.current_user [
      | some b ↦ get_user_credentials_from_database D c' s >>= λ c''. ok (c'', (s, home))
      | none ↦
          ok (after_registration c' (registration_user_into_db D accepted s c.user uid email url))
    ]
