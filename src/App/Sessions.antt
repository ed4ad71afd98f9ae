-- ===== src/App/Sessions.antt =====
-- Logging in and out as steps between states, and what holds in every state that they reach.
use flchat.Base.{
  ◌≡◌, refl, sym, ap, subst, ◌∙◌, ◌⊎◌, inl, inr, Bool, true, false, Option, none, some,
  Option-cases,
}
use flchat.App.Values.{String, Attempt, crash, skip, ok, ◌>>=◌, unwrap}
use flchat.App.Database.{Database}
use flchat.App.Models.{Account, User, new_user, reset_user_settings_to_default}
use flchat.App.Service.{registration_user_into_db}
use flchat.App.Account.{
  Session, get_user_credentials_from_database, sign_out_pressed, change_name_btn_pressed,
  change_phone_btn_pressed, push_notification_sound_btn_pressed, push_notification_btn_pressed,
  upload_new_user_image_into_db,
}
use flchat.App.LogIn.{
  AuthAnswer, failed, signed_in, Shown, home, unchanged, view_did_appear, login_btn_pressed,
  registrate_user_and_log_in, facebook_auth, sign,
}
use flchat.App.Settings.{Change, new_name, new_phone, new_sound, new_push, new_image, press}

-- A result, where there is one, satisfies the predicate.
data AllOk {A : Type 0} (P : A → Type 0) : Attempt A → Type 0 where
  crashes : AllOk P crash
  skips : AllOk P skip
  oks : {a : A} → P a → AllOk P (ok a)

AllOk-bind :
    {A B : Type 0} {P : B → Type 0} (m : Attempt A) {f : A → Attempt B}
    → ((a : A) → AllOk P (f a))
    → AllOk P (m >>= f)
unfolding ◌>>=◌
AllOk-bind crash h = crashes
AllOk-bind skip h = skips
AllOk-bind (ok a) h = h a

AllOk-then :
    {A B : Type 0} {Q : A → Type 0} {P : B → Type 0} {m : Attempt A} {f : A → Attempt B}
    → AllOk Q m
    → ((a : A) → Q a → AllOk P (f a))
    → AllOk P (m >>= f)
unfolding ◌>>=◌
AllOk-then crashes h = crashes
AllOk-then skips h = skips
AllOk-then (oks {a = a} q) h = h a q

AllOk-ok : {A : Type 0} {P : A → Type 0} {m : Attempt A} {a : A} → AllOk P m → m ≡ ok a → P a
AllOk-ok crashes e = absurd (cc)
AllOk-ok skips e = absurd (cc)
AllOk-ok {P = P} {a = a} (oks {a = b} p) e = let same : b ≡ a = cc e in subst P same p

abbrev has_user : Option Account → Bool
has_user none = false
has_user (some a) = true

-- The flag says whether there is a current user, and without one the user's data are the defaults.
pub record IsConsistent (c : Session) : Type 0 where
  pub flagged : c.is_logged_in ≡ has_user c.current_user
  pub reset : c.is_logged_in ≡ false → c.user ≡ new_user

module _ (D : Database) where
  open D use {Store}

  pub data SessionStep : Session × Store → Session × Store → Type 0 where
    logs_in :
        (answer : AuthAnswer) (c c' : Session) (s : Store) (shown : Shown)
        → login_btn_pressed D answer c s ≡ ok (c', shown)
        → SessionStep (c, s) (c', s)
    registers :
        (accepted : Bool) (url : Option String) (answer : AuthAnswer) (c c' : Session)
        (s s' : Store) (shown : Shown)
        → registrate_user_and_log_in D accepted url answer c s ≡ ok (c', (s', shown))
        → SessionStep (c, s) (c', s')
    facebook :
        (accepted : Bool) (url : Option String) (answer : AuthAnswer) (c c' : Session)
        (s s' : Store) (shown : Shown)
        → facebook_auth D accepted url answer c s ≡ ok (c', (s', shown))
        → SessionStep (c, s) (c', s')
    google :
        (accepted : Bool) (url : Option String) (answer : AuthAnswer) (c c' : Session)
        (s s' : Store) (shown : Shown)
        → sign D accepted url answer c s ≡ ok (c', (s', shown))
        → SessionStep (c, s) (c', s')
    changes :
        (change : Change) (accepted : Bool) (c c' : Session) (s s' : Store)
        → press D change accepted c s ≡ ok (c', s')
        → SessionStep (c, s) (c', s')
    signs_out :
        (signed_out : Bool) (c : Session) (s : Store)
        → SessionStep (c, s) (sign_out_pressed signed_out c, s)
    others : (c : Session) (s s' : Store) → SessionStep (c, s) (c, s')  -- other users write

  pub data SessionReach : Session × Store → Type 0 where
    installed :
        (s : Store)
        → SessionReach (record { current_user = none; is_logged_in = false; user = new_user }, s)
    more : {a b : Session × Store} → SessionReach a → SessionStep a b → SessionReach b

  abbrev Kept : Account → Session → Type 0
  Kept a c = (c.current_user ≡ some a) × (c.is_logged_in ≡ true)

  Kept-IsConsistent : (a : Account) (c : Session) → Kept a c → IsConsistent c
  Kept-IsConsistent a c (u, l) = record {
    flagged = rw (l, u) refl;
    reset = λ e. absurd (cc (l, e));
  }

  -- what the reading of the user's data leaves
  get_user_credentials-Kept :
      (a : Account) (u : User) (s : Store)
      → AllOk (Kept a) (
          get_user_credentials_from_database D
            (record { current_user = some a; is_logged_in = true; user = u })
            s)
  unfolding get_user_credentials_from_database
  get_user_credentials-Kept a u s = AllOk-bind _ λ _. AllOk-bind _ λ phone. AllOk-bind _ λ name.
      AllOk-bind _ λ email. AllOk-bind _ λ image. AllOk-bind _ λ online. AllOk-bind _ λ push.
        AllOk-bind _ λ sound.
          oks
            {a = record {
              current_user = some a;
              is_logged_in = true;
              user = record {
                name = name;
                image = image;
                phone = phone;
                email = email;
                online = online;
                notification_on = push;
                notification_sound_on = sound;
              };
            }}
            (refl, refl)

  login-IsConsistent :
      (answer : AuthAnswer) (c : Session) (s : Store)
      → IsConsistent c
      → AllOk (λ r. IsConsistent r.0) (login_btn_pressed D answer c s)
  unfolding login_btn_pressed
  login-IsConsistent (failed message) c s h = oks h
  login-IsConsistent (signed_in a) c s h =
      AllOk-then (get_user_credentials-Kept a c.user s) (λ c' k. oks (Kept-IsConsistent a c' k))

  registrate-IsConsistent :
      (accepted : Bool) (url : Option String) (answer : AuthAnswer) (c : Session) (s : Store)
      → IsConsistent c
      → AllOk (λ r. IsConsistent r.0) (registrate_user_and_log_in D accepted url answer c s)
  unfolding registrate_user_and_log_in registration_user_into_db
  registrate-IsConsistent accepted url (failed message) c s h = oks h
  registrate-IsConsistent accepted none (signed_in a) c s h =
      AllOk-bind (unwrap a.email) (λ email. oks (Kept-IsConsistent a _ (refl, refl)))
  registrate-IsConsistent accepted (some url) (signed_in a) c s h =
      AllOk-bind (unwrap a.email) (λ email. oks (Kept-IsConsistent a _ (refl, refl)))

  facebook-IsConsistent :
      (accepted : Bool) (url : Option String) (answer : AuthAnswer) (c : Session) (s : Store)
      → IsConsistent c
      → AllOk (λ r. IsConsistent r.0) (facebook_auth D accepted url answer c s)
  unfolding facebook_auth registration_user_into_db
  facebook-IsConsistent accepted url (failed message) c s h = oks h
  facebook-IsConsistent accepted none (signed_in a) c s h =
      AllOk-bind (unwrap a.email) (λ email. oks (Kept-IsConsistent a _ (refl, refl)))
  facebook-IsConsistent accepted (some url) (signed_in a) c s h =
      AllOk-bind (unwrap a.email) (λ email. oks (Kept-IsConsistent a _ (refl, refl)))

  sign-IsConsistent :
      (accepted : Bool) (url : Option String) (answer : AuthAnswer) (c : Session) (s : Store)
      → IsConsistent c
      → AllOk (λ r. IsConsistent r.0) (sign D accepted url answer c s)
  unfolding sign ◌>>=◌
  sign-IsConsistent accepted url (failed message) c s h = oks h
  sign-IsConsistent accepted url (signed_in a) c s h = AllOk-bind (unwrap a.email) (λ email.
      AllOk-then (get_user_credentials-Kept a c.user s) (λ c' k. oks (Kept-IsConsistent a c' k)))

  -- a change of the settings, for a user that is logged in
  press-Kept :
      (change : Change) (accepted : Bool) (a : Account) (u : User) (s : Store)
      → AllOk
          (λ r. Kept a r.0)
          (press D change accepted
            (record { current_user = some a; is_logged_in = true; user = u })
            s)
  unfolding press change_name_btn_pressed change_phone_btn_pressed
      push_notification_sound_btn_pressed push_notification_btn_pressed
      upload_new_user_image_into_db
  press-Kept (new_name n) accepted a u s =
      AllOk-bind _ λ _. AllOk-then (get_user_credentials-Kept a u _) (λ c' k. oks k)
  press-Kept (new_phone n) accepted a u s =
      AllOk-bind _ λ _. AllOk-then (get_user_credentials-Kept a u _) (λ c' k. oks k)
  press-Kept (new_sound b) accepted a u s =
      AllOk-bind _ λ _. AllOk-then (get_user_credentials-Kept a u _) (λ c' k. oks k)
  press-Kept (new_push b) accepted a u s =
      AllOk-bind _ λ _. AllOk-then (get_user_credentials-Kept a u _) (λ c' k. oks k)
  press-Kept (new_image none) accepted a u s = AllOk-bind _ λ _. oks (refl, refl)
  press-Kept (new_image (some url)) accepted a u s =
      AllOk-bind _ λ _. AllOk-then (get_user_credentials-Kept a u _) (λ c' k. oks k)

  press-none :
      (change : Change) (accepted : Bool) (c : Session) (s : Store)
      → c.current_user ≡ none
      → press D change accepted c s ≡ crash
  unfolding press change_name_btn_pressed change_phone_btn_pressed
      push_notification_sound_btn_pressed push_notification_btn_pressed
      upload_new_user_image_into_db ◌>>=◌
  press-none (new_name n) accepted c s e = rw e refl
  press-none (new_phone n) accepted c s e = rw e refl
  press-none (new_sound b) accepted c s e = rw e refl
  press-none (new_push b) accepted c s e = rw e refl
  press-none (new_image url) accepted c s e = rw e refl

  press-IsConsistent :
      (change : Change) (accepted : Bool) (c c' : Session) (s s' : Store)
      → IsConsistent c
      → press D change accepted c s ≡ ok (c', s')
      → IsConsistent c'
  press-IsConsistent change accepted c c' s s' h e = elim (Option-cases c.current_user) [
    | inl n ↦
        let crashed : crash ≡ ok (c', s') = sym (press-none change accepted c s n) ∙ e in
        absurd (cc crashed)
    | inr (a, n) ↦
        let on : c.is_logged_in ≡ true = h.flagged ∙ ap has_user n in
        let whole : c ≡ record { current_user = some a; is_logged_in = true; user = c.user } =
          cc (n, on) in
        Kept-IsConsistent a c' (
          AllOk-ok (press-Kept change accepted a c.user s)
            (subst (λ (d : Session). press D change accepted d s ≡ ok (c', s')) whole e))
  ]

  SessionStep-IsConsistent :
      {a b : Session × Store} → SessionStep a b → IsConsistent a.0 → IsConsistent b.0
  unfolding sign_out_pressed reset_user_settings_to_default
  SessionStep-IsConsistent (logs_in answer c c' s shown e) h =
      AllOk-ok (login-IsConsistent answer c s h) e
  SessionStep-IsConsistent (registers accepted url answer c c' s s' shown e) h =
      AllOk-ok (registrate-IsConsistent accepted url answer c s h) e
  SessionStep-IsConsistent (facebook accepted url answer c c' s s' shown e) h =
      AllOk-ok (facebook-IsConsistent accepted url answer c s h) e
  SessionStep-IsConsistent (google accepted url answer c c' s s' shown e) h =
      AllOk-ok (sign-IsConsistent accepted url answer c s h) e
  SessionStep-IsConsistent (changes change accepted c c' s s' e) h =
      press-IsConsistent change accepted c c' s s' h e
  SessionStep-IsConsistent (signs_out true c s) h = record { flagged = refl; reset = λ _. refl }
  SessionStep-IsConsistent (signs_out false c s) h = h
  SessionStep-IsConsistent (others c s s') h = h

  SessionReach-IsConsistent : {a : Session × Store} → SessionReach a → IsConsistent a.0
  SessionReach-IsConsistent (installed s) = record { flagged = refl; reset = λ _. refl }
  SessionReach-IsConsistent (more r st) = SessionStep-IsConsistent st (SessionReach-IsConsistent r)

  -- In every state that logging in and out, changes of the settings and the writes of other users reach
  -- from a new installation, the flag isLoggedIn is set exactly where there is a current user: there the
  -- log-in screen goes on to the home screen; elsewhere it stays, and the user's data are the defaults.
  pub SessionReach-view_did_appear :
      (c : Session) (s : Store)
      → SessionReach (c, s)
      → ((view_did_appear c ≡ home) × ((a : Account) × (c.current_user ≡ some a)))
        ⊎ ((view_did_appear c ≡ unchanged) × ((c.current_user ≡ none) × (c.user ≡ new_user)))
  unfolding view_did_appear
  SessionReach-view_did_appear c s r =
      let h = SessionReach-IsConsistent r in
      elim (Option-cases c.current_user) [
        | inl n ↦
            let off : c.is_logged_in ≡ false = h.flagged ∙ ap has_user n in
            inr (rw off refl, (n, h.reset off))
        | inr (a, n) ↦
            let on : c.is_logged_in ≡ true = h.flagged ∙ ap has_user n in inl (rw on refl, (a, n))
      ]
