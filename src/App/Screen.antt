-- ===== src/App/Screen.antt =====
-- The message screen: when the send button is enabled, and what a cell that is used again shows.
use flchat.Base.{◌≡◌, ◌≢◌, false, sym, ap, ◌⊎◌, ℕ, true, false, Option, none, some, [], arith}
use flchat.App.Values.{String, eq_iff, ok, ◌>>=◌}
use flchat.App.Database.{Database}
use flchat.App.Models.{Account, Message}
use flchat.App.Observe.{bind-ok}
use flchat.App.Messages.{
  Screen, Sent, Cell, Images, view_did_appear, text_field_did_changed, send_btn_pressed, setup_cell,
  cell_for_item_at, handle_send,
}

-- What happens on the screen: the view appears, the user edits the text, which calls
-- textFieldDidChanged, or the button is pressed, which can be while it is enabled.
pub data ScreenStep (D : Database) : Screen × D.Store → Screen × D.Store → Type 0 where
  appears : (v : Screen) (s : D.Store) → ScreenStep D (v, s) (view_did_appear v, s)
  edits :
      (v : Screen) (s : D.Store) (text : String)
      → ScreenStep D (v, s) (text_field_did_changed (record v { text = text }), s)
  sends :
      (v : Screen) (s : D.Store) (me : Option Account) (uid : Option String) (time : ℕ)
      (key : String) (sent : Sent) (after : Screen × D.Store)
      → v.enabled ≡ true
      → send_btn_pressed D me uid time key sent (v, s) ≡ ok after
      → ScreenStep D (v, s) after

pub data ScreenReach (D : Database) : Screen × D.Store → Type 0 where
  opened : (v : Screen) (s : D.Store) → ScreenReach D (view_did_appear v, s)
  more : {a b : Screen × D.Store} → ScreenReach D a → ScreenStep D a b → ScreenReach D b

abbrev cleared : Screen
cleared = record { text = ""; enabled = false }

module _ (D : Database) where
  send_btn_pressed-cleared :
      (me : Option Account) (uid : Option String) (time : ℕ) (key : String) (sent : Sent)
      (before after : Screen × D.Store)
      → send_btn_pressed D me uid time key sent before ≡ ok after
      → after.0 ≡ cleared
  unfolding send_btn_pressed
  send_btn_pressed-cleared me uid time key sent (v, s) after e =
      let (t, (_, done)) = bind-ok (handle_send D me uid v.text none time key sent s) _ after e in
      let same : (cleared, t) ≡ after = cc done in ap (λ (w : Screen × D.Store). w.0) (sym same)

  -- In every state that the message screen reaches, the send button is enabled only where the text is
  -- not empty.
  pub ScreenReach-typed :
      (a : Screen × D.Store) → ScreenReach D a → a.0.enabled ≡ true → a.0.text ≢ ""
  unfolding view_did_appear text_field_did_changed
  ScreenReach-typed _ (opened v s) e = absurd (cc)
  ScreenReach-typed _ (more r (appears v s)) e = absurd (cc)
  ScreenReach-typed _ (more r (edits v s text)) e = ground (arith, e, eq_iff text "")
  ScreenReach-typed _ (more r (sends v s me uid time key sent after on done)) e =
      let c : after.0 ≡ cleared = send_btn_pressed-cleared me uid time key sent (v, s) after done in
      absurd (cc (c, e))

-- A cell but for its two pictures.
abbrev pub without_pictures : Cell → Cell
without_pictures c = record c {
  user_image = record { image = none; loading = [] };
  message_image = record { image = none; loading = [] };
}

-- A cell that was used for another message shows a message with a text or an image as any other cell
-- does, but for its two pictures, once the address of the other user's picture is known; setting it up
-- crashes in both cells or in none.
pub cell_for_item_at-reuse :
    (text_width : String → ℕ) (images : Images) (me : Option Account) (url : String) (m : Message)
    (c d : Cell)
    → (m.message ≢ none) ⊎ (m.image ≢ none)
    → (cell_for_item_at text_width images me (some url) m c >>= λ x. ok (without_pictures x))
      ≡ (cell_for_item_at text_width images me (some url) m d >>= λ x. ok (without_pictures x))
unfolding cell_for_item_at setup_cell ◌>>=◌
cell_for_item_at-reuse text_width images me url m c d h = ground (arith, h)

-- The addresses of the pictures that a cell with the message needs are addresses of pictures.
abbrev pub HasUrls : Images → String → Message → Type 0
HasUrls images url m =
    (images.is_url url ≡ true)
    × ((image : String) → m.image ≡ some image → images.is_url image ≡ true)

abbrev pub RightSide : Cell → Type 0
RightSide d = (d.right_anchor ≡ true) × ((d.left_anchor ≡ false) × (d.user_image_hidden ≡ true))

abbrev pub LeftSide : Cell → Type 0
LeftSide d = (d.right_anchor ≡ false) × ((d.left_anchor ≡ true) × (d.user_image_hidden ≡ false))
