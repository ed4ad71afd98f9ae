-- ===== src/App/Messages.antt =====
-- Controllers/MessageVC.swift: sending a message, watching a conversation, the state of the text field
-- and the send button, and how a cell shows a message.
use flchat.Base.{
  ℕ, ◌+◌, Bool, true, false, not, Option, none, some, List, [], ◌∷◌, ◌++◌, if◌then◌else◌,
}
use flchat.App.Values.{
  String, ◌==◌, Dictionary, KeyPath, Attempt, crash, ok, ◌>>=◌, unwrap, guard, as_string, as_double,
}
use flchat.App.Database.{Database}
use flchat.App.Models.{Account, Message, new_message}
use flchat.App.Search.{as_dictionary, observe}
use flchat.App.Service.{
  current_uid, string, double, entry, update, messages_ref, users_messages_ref,
}

-- The image of a picture that was uploaded: its address and its size.
pub record Picture : Type 0 where
  pub url : String
  pub width : ℕ
  pub height : ℕ

abbrev pub message_value : String → String → ℕ → String → Option Picture → Dictionary
message_value from_id to_id time message none =
    ("fromId", string from_id)
    ∷ (("toId", string to_id) ∷ (("timeStamp", double time) ∷ (("message", string message) ∷ [])))
message_value from_id to_id time message (some picture) =
    ("fromId", string from_id)
    ∷ (("toId", string to_id)
        ∷ (("timeStamp", double time)
            ∷ (("imageUrl", string picture.url)
                ∷ (("imageWidth", double picture.width)
                    ∷ (("imageHeight", double picture.height) ∷ [])))))

-- The server's answers: to the message, and to the two lists.
pub record Sent : Type 0 where
  pub message : Bool
  pub own : Bool
  pub recipient : Bool

abbrev pub with_text : Option String → Message → Message
with_text none m = m
with_text (some text) m = record m { message = some text }

module _ (D : Database) where
  open D use {Store, leaf, keys, update_child_values}

  -- the completion block of the write
  abbrev pub index_message : Sent → Store → String → String → String → Store
  index_message sent s from_id to_id message_id =
      let s₁ = update D sent.own s (users_messages_ref from_id to_id) (entry message_id) in
      update D sent.recipient s₁ (users_messages_ref to_id from_id) (entry message_id)

  unfoldable pub handle_send :
      Option Account
      → Option String
      → String
      → Option Picture
      → ℕ
      → String
      → Sent
      → Store
      → Attempt Store
  handle_send me uid message picture time key sent s = do
    from_id ← current_uid me
    to_id ← unwrap uid
    let value = message_value from_id to_id time message picture
    ok (
        if sent.message
        then index_message sent (update_child_values s (messages_ref key) value) from_id to_id key
        else s)

  abbrev pub with_image : Store → KeyPath → Option String → Message → Message
  with_image s p none m = m
  with_image s p (some url) m = record m {
    image = some url;
    image_width = as_double (leaf s (p ++ ("imageWidth" ∷ [])));
    image_height = as_double (leaf s (p ++ ("imageHeight" ∷ [])));
  }

  unfoldable pub message_at : Store → String → Attempt Message
  message_at s message_id = do
    p ← as_dictionary (keys s (messages_ref message_id)) (messages_ref message_id)
    from_id ← unwrap (as_string (leaf s (p ++ ("fromId" ∷ []))))
    to_id ← unwrap (as_string (leaf s (p ++ ("toId" ∷ []))))
    let texted =
        with_text (as_string (leaf s (p ++ ("message" ∷ []))))
          (record new_message { from_id = some from_id; to_id = some to_id })
    let whole = with_image s p (as_string (leaf s (p ++ ("imageUrl" ∷ [])))) texted
    time_stamp ← unwrap (as_double (leaf s (p ++ ("timeStamp" ∷ []))))
    ok (record whole { time_stamp = some time_stamp })

  -- The completion block gets one array after each message. `_uid` does not change while the view is
  -- shown, so toId == self._uid! holds.
  unfoldable pub observ_user_messages :
      Option Account → Option String → Store → Attempt (List (List Message))
  unfolding observe message_at
  observ_user_messages me uid s = do
    account ← guard me
    to_id ← guard uid
    observe (message_at s) (keys s (users_messages_ref account.uid to_id)) []

-- The text field and the send button; a text field gives "" for nil.
pub record Screen : Type 0 where
  pub text : String
  pub enabled : Bool

unfoldable pub view_did_appear : Screen → Screen
view_did_appear v = record v { enabled = false }

unfoldable pub text_field_did_changed : Screen → Screen
text_field_did_changed v = record v { enabled = if not (v.text == "") then true else false }

module _ (D : Database) where
  open D use {Store}

  unfoldable pub send_btn_pressed :
      Option Account → Option String → ℕ → String → Sent → Screen × Store → Attempt (Screen × Store)
  unfolding handle_send
  send_btn_pressed me uid time key sent (v, s) = do
    s' ← handle_send D me uid v.text none time key sent s
    ok (record { text = ""; enabled = false }, s')

-- A picture on the screen, by its address, and the requests for pictures that will be put there.
pub record ImageView : Type 0 where
  pub image : Option String
  pub loading : List String

-- What the pictures' addresses are: whether `URL(string:)` takes them, and whether the picture is in
-- `imageCache`.
pub record Images : Type 0 where
  pub is_url : String → Bool
  pub cached : String → Bool

-- loadImageUsingCacheWithUrlString: the view keeps its picture until the request has ended.
abbrev pub load_image : Images → String → ImageView → Attempt ImageView
load_image images url_string v =
    if images.cached url_string
    then ok (record v { image = some url_string })
    else if images.is_url url_string
    then ok (record v { loading = v.loading ++ (url_string ∷ []) })
    else crash

-- The end of a request: `data` is nil, which crashes, or no image, or an image.
pub data Downloaded : Type 0 where
  no_data no_image downloaded_image : Downloaded

abbrev pub image_arrived : Downloaded → String → ImageView → Attempt ImageView
image_arrived no_data url_string v = crash
image_arrived no_image url_string v = ok v
image_arrived downloaded_image url_string v = ok (record v { image = some url_string })

-- The three colours of a bubble: the user's, the other user's, and clear behind a picture.
pub data Background : Type 0 where
  own_color other_color clear : Background

-- The sides of a cell's bubble, what it shows and how wide it is; the width that the text takes is a
-- parameter of the layout.
pub record Cell : Type 0 where
  pub user_image : ImageView
  pub message_image : ImageView
  pub background_color : Background
  pub user_image_hidden : Bool
  pub right_anchor : Bool
  pub left_anchor : Bool
  pub message_image_hidden : Bool
  pub text_hidden : Bool
  pub text : Option String
  pub bubble_width : ℕ

abbrev pub is_own : Option Account → Message → Bool
is_own none m = elim m.from_id [ none ↦ true | some uid ↦ false ]
is_own (some a) m = elim m.from_id [ none ↦ false | some uid ↦ uid == a.uid ]

abbrev pub with_side : Bool → Cell → Cell
with_side true cell = record cell {
  background_color = own_color;
  user_image_hidden = true;
  right_anchor = true;
  left_anchor = false;
}
with_side false cell = record cell {
  background_color = other_color;
  user_image_hidden = false;
  right_anchor = false;
  left_anchor = true;
}

abbrev pub with_message_image : Images → Option String → Cell → Attempt Cell
with_message_image images none cell = ok (record cell { message_image_hidden = true })
with_message_image images (some message_image_url) cell = do
  view ← load_image images message_image_url cell.message_image
  ok (record cell { message_image = view; message_image_hidden = false; background_color = clear })

-- A cell is used again for other messages: what is not set stays. `url_image` is the address of the
-- other user's picture.
unfoldable pub setup_cell : Images → Option Account → Option String → Message → Cell → Attempt Cell
setup_cell images me none m cell = ok cell
setup_cell images me (some profile_user_url) m cell = do
  view ← load_image images profile_user_url cell.user_image
  with_message_image images m.image (with_side (is_own me m) (record cell { user_image = view }))

-- the width of the bubble, and whether the text is hidden
abbrev pub with_width : (String → ℕ) → Option String → Option String → Cell → Cell
with_width text_width (some text) image cell = record cell {
  bubble_width = text_width text + 32;
  text_hidden = false;
}
with_width text_width none (some url) cell = record cell { bubble_width = 200; text_hidden = true }
with_width text_width none none cell = cell

unfoldable pub cell_for_item_at :
    (String → ℕ) → Images → Option Account → Option String → Message → Cell → Attempt Cell
unfolding setup_cell
cell_for_item_at text_width images me url_image m cell = do
  set ← setup_cell images me url_image m cell
  ok (with_width text_width m.message m.image (record set { text = m.message }))
