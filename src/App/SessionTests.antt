-- ===== src/App/SessionTests.antt =====
-- Runs and instances for messages, the settings and logging in, on a database that is a list of writes.
use package.text.Mathlib.Text.{starts_with}
use flchat.Base.{
  ◌≡◌, ◌≢◌, ◌⊎◌, refl, inl, ◌≤◌, true, false, Option, none, some, [], ◌∷◌, ◌++◌, if◌then◌else◌,
}
use flchat.App.Values.{String, ◌==◌, crash, ok, ◌>>=◌, KeyPath}
use flchat.App.Models.{Account, User, Message, new_user, new_message}
use flchat.App.Memory.{memory, memory-IsFirebase, leaf_of, keys_of}
use flchat.App.Service.{
  all_removed, users_ref, user_data, user_friend_request_ref, messages_ref,
  remove_friend_requests_from_database,
}
use flchat.App.Search.{get_users_from_database}
use flchat.App.Messages.{
  handle_send, observ_user_messages, view_did_appear, text_field_did_changed, Cell,
  cell_for_item_at, Images, clear,
}
use flchat.App.Account.{Session}
use flchat.App.LogIn.{
  AuthAnswer, signed_in, home, unchanged, registrate_user_and_log_in, login_btn_pressed,
  custom_errors_yes, facebook_auth, sign,
}
use flchat.App.LogIn
use flchat.App.Observe.{In, Returns, Ends}
use flchat.App.Conversation.{Linked, all_sent}
use flchat.App.ConversationKept.{handle_send-Linked, handle_send-shown}
use flchat.App.Screen.{
  ScreenReach, opened, more, edits, ScreenReach-typed, cell_for_item_at-reuse, without_pictures,
}
use flchat.App.Settings.{new_name, asked, press, SettingsAt, press-SettingsAt}
use flchat.App.Sessions.{installed, SessionReach-view_did_appear}
use flchat.App.Registered.{
  registered, registrate_user_and_log_in-login, custom_errors_yes-long, sign-unregistered,
  facebook_auth-resets, matching, get_users_from_database-matching,
}
use flchat.App.Removed.{any_removed, is_empty, remove_friend_requests_from_database-leaf}
use flchat.App.Samples.{ann, bob, ann_user, listed}

empty-Linked : Linked memory []
unfolding leaf_of
empty-Linked = record {
  whole = λ key k q x h. absurd (cc h);
  linked = λ uid other key x h. absurd (cc h);
}

fresh_key : (q : KeyPath) → leaf_of [] (messages_ref "m" ++ q) ≡ none
unfolding leaf_of
fresh_key q = refl

abbrev hello : Message
hello = record new_message {
  from_id = some "ann";
  to_id = some "bob";
  time_stamp = some 7;
  message = some "hello";
}

-- Bob sees Ann's message.
message_run :
    (handle_send memory (some ann) (some "bob") "hello" none 7 "m" all_sent [] >>= λ s.
    observ_user_messages memory (some bob) (some "ann") s)
    ≡ ok ((hello ∷ []) ∷ [])
unfolding handle_send observ_user_messages ◌>>=◌ leaf_of keys_of
message_run = refl

handle_send-shown_example :
    Returns (handle_send memory (some ann) (some "bob") "hello" none 7 "m" all_sent []) (λ t.
      Ends (observ_user_messages memory (some ann) (some "bob") t) (In hello)
      × Ends (observ_user_messages memory (some bob) (some "ann") t) (In hello))
handle_send-shown_example =
    handle_send-shown memory memory-IsFirebase ann "bob" (some "bob@x") "hello" none 7 "m" []
      empty-Linked fresh_key

handle_send-Linked_example :
    Returns
      (handle_send memory
        (some ann)
        (some "bob")
        "hello"
        none
        7
        "m"
        (record { message = true; own = false; recipient = true })
        [])
      (Linked memory)
handle_send-Linked_example =
    handle_send-Linked memory memory-IsFirebase ann "bob" "hello" none 7 "m"
      (record { message = true; own = false; recipient = true }) [] empty-Linked

typing : ScreenReach memory (text_field_did_changed (record { text = "hi"; enabled = false }), [])
unfolding view_did_appear
typing = more (opened (record { text = ""; enabled = true }) []) (edits _ [] "hi")

typed : (text_field_did_changed (record { text = "hi"; enabled = false })).enabled ≡ true
unfolding text_field_did_changed
typed = refl

ScreenReach-typed_example :
    (text_field_did_changed (record { text = "hi"; enabled = false })).text ≢ ""
ScreenReach-typed_example = ScreenReach-typed memory _ typing typed

abbrev blank : Cell
blank = record {
  user_image = record { image = none; loading = [] };
  message_image = record { image = none; loading = [] };
  background_color = clear;
  user_image_hidden = false;
  right_anchor = false;
  left_anchor = false;
  message_image_hidden = false;
  text_hidden = false;
  text = none;
  bubble_width = 0;
}

abbrev used : Cell
used = record blank { right_anchor = true; text_hidden = true }

-- Bob's picture is in the cache.
abbrev images : Images
images = record { is_url = λ url. true; cached = λ url. url == "bob.png" }

has_text : hello.message ≢ none
has_text h = absurd (cc h)

cell_for_item_at-reuse_example :
    (cell_for_item_at (λ _. 5) images (some ann) (some "bob.png") hello blank >>= λ x.
    ok (without_pictures x))
    ≡ (cell_for_item_at (λ _. 5) images (some ann) (some "bob.png") hello used >>= λ x.
        ok (without_pictures x))
cell_for_item_at-reuse_example =
    cell_for_item_at-reuse (λ _. 5) images (some ann) "bob.png" hello blank used (inl has_text)

abbrev pictured : String → Message
pictured url = record new_message {
  from_id = some "bob";
  to_id = some "ann";
  time_stamp = some 7;
  image = some url;
}

-- a database with Ann's data
abbrev stored : memory.Store
stored =
    memory.update_child_values [] (users_ref "ann")
      (user_data "ann@x" ann_user.phone ann_user.name ann_user.image true true true)

stored-SettingsAt : SettingsAt memory stored "ann" ann_user
unfolding leaf_of
stored-SettingsAt = record {
  at_phone = refl;
  at_name = refl;
  at_email = refl;
  at_image = refl;
  at_online = refl;
  at_notification_on = refl;
  at_notification_sound = refl;
}

press-SettingsAt_example :
    (t : memory.Store) × ((v : User) × ((press memory
            (new_name "")
            true
            (record { current_user = some ann; is_logged_in = true; user = ann_user })
            stored
          ≡ ok (record { current_user = some ann; is_logged_in = true; user = v }, t))
        × (SettingsAt memory t "ann" v × (v ≡ asked (new_name "") ann_user))))
press-SettingsAt_example =
    press-SettingsAt memory memory-IsFirebase (new_name "") true ann true ann_user stored
      stored-SettingsAt

abbrev fresh_session : Session
fresh_session = record { current_user = none; is_logged_in = false; user = new_user }

SessionReach-view_did_appear_example :
    ((LogIn.view_did_appear fresh_session ≡ home)
      × ((a : Account) × (◌≡◌ {A = Option Account} none (some a))))
    ⊎ ((LogIn.view_did_appear fresh_session ≡ unchanged)
        × ((◌≡◌ {A = Option Account} none none) × (new_user ≡ new_user)))
SessionReach-view_did_appear_example =
    SessionReach-view_did_appear memory fresh_session [] (installed [])

registrate_user_and_log_in-login_example :
    (c' : Session) × ((t : memory.Store) × ((registrate_user_and_log_in memory true
            (some "u.png")
            (signed_in ann)
            fresh_session
            []
          ≡ ok (c', (t, home)))
        × (login_btn_pressed memory (signed_in ann) fresh_session t
            ≡ ok (
              record {
                current_user = some ann;
                is_logged_in = true;
                user = registered new_user "ann@x" "u.png";
              },
              home,
            ))))
registrate_user_and_log_in-login_example =
    registrate_user_and_log_in-login memory memory-IsFirebase "ann" "ann@x" "u.png" fresh_session
      fresh_session []

long_run :
    custom_errors_yes memory
      (λ _. 8)
      "ann@xy"
      "12345678"
      true
      (some "u.png")
      (signed_in ann)
      fresh_session
      []
    ≡ ok (
      record { current_user = some ann; is_logged_in = true; user = new_user },
      (
        memory.update_child_values []
            (users_ref "ann")
            (user_data "ann@x" "User phone" "User name" "u.png" true true true),
        home,
      ),
    )
unfolding custom_errors_yes ◌>>=◌
long_run = refl

custom_errors_yes-long_example : (6 ≤ 8) × (6 ≤ 8)
custom_errors_yes-long_example =
    custom_errors_yes-long memory memory-IsFirebase (λ _. 8) "ann@xy" "12345678" true (some "u.png")
      (signed_in ann) fresh_session _ [] _ long_run

unregistered : (q : KeyPath) → leaf_of stored (users_ref "bob" ++ q) ≡ none
unfolding leaf_of
unregistered q = refl

sign-unregistered_example :
    sign memory true (some "u.png") (signed_in bob) fresh_session stored ≡ crash
sign-unregistered_example =
    sign-unregistered memory memory-IsFirebase true (some "u.png") "bob" "bob@x" fresh_session
      stored unregistered

stored_keys : memory.keys stored ("users" ∷ []) ≡ "ann" ∷ []
unfolding keys_of
stored_keys = refl

get_users_from_database-matching_example :
    get_users_from_database memory starts_with (some bob) "" stored
    ≡ ok (matching starts_with (some bob) "" (("ann", ann_user) ∷ []))
get_users_from_database-matching_example =
    get_users_from_database-matching memory starts_with (some bob) "" stored
      (("ann", ann_user) ∷ []) stored_keys (stored-SettingsAt, tt)

remove_friend_requests_from_database-leaf_example :
    leaf_of
      (remove_friend_requests_from_database memory all_removed listed "ann" "bob")
      (messages_ref "m")
    ≡ (if is_empty (memory.keys listed (user_friend_request_ref "ann" "bob"))
        then leaf_of listed (messages_ref "m")
        else if any_removed "ann" "bob"
            (memory.keys listed (user_friend_request_ref "bob" "ann"))
            (messages_ref "m")
        then none
        else leaf_of listed (messages_ref "m"))
remove_friend_requests_from_database-leaf_example =
    remove_friend_requests_from_database-leaf memory memory-IsFirebase listed "ann" "bob"
      (messages_ref "m")

facebook_auth-resets_example :
    (c' : Session) × ((t : memory.Store) × ((facebook_auth memory true
            (some "u.png")
            (signed_in ann)
            fresh_session
            stored
          ≡ ok (c', (t, home)))
        × SettingsAt memory t "ann" (registered new_user "ann@x" "u.png")))
facebook_auth-resets_example =
    facebook_auth-resets memory memory-IsFirebase "ann" "ann@x" "u.png" fresh_session stored refl
