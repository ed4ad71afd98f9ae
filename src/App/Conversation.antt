-- ===== src/App/Conversation.antt =====
-- Messages: the invariant that every entry of a conversation has a whole message, and what both users
-- then see.
use flchat.Base.{◌≡◌, refl, ◌∙◌, ◌≢◌, inl, inr, ℕ, true, Option, none, some, [], ◌∷◌, ◌++◌}
use flchat.App.Values.{String, Scalar, text, number, KeyPath, crash, ok, ◌>>=◌, lookup, as_string}
use flchat.App.Database.{Database, IsFirebase}
use flchat.App.Models.{Message, new_message}
use flchat.App.Service.{string, double, messages_ref}
use flchat.App.Messages.{Picture, message_value, Sent, with_text, with_image, message_at}
use flchat.App.WellFormed.{as_dictionary-leaf, as_dictionary-cases}
use flchat.App.Kept.{update-under, update-missing}

pub record Header : Type 0 where
  pub from_id : String
  pub to_id : String
  pub time_stamp : ℕ

abbrev pub all_sent : Sent
all_sent = record { message = true; own = true; recipient = true }

-- the message that the application shows for what it sent
abbrev pub shown_message : Header → String → Option Picture → Message
shown_message h message none = record new_message {
  from_id = some h.from_id;
  to_id = some h.to_id;
  time_stamp = some h.time_stamp;
  message = some message;
}
shown_message h message (some picture) = record new_message {
  from_id = some h.from_id;
  to_id = some h.to_id;
  time_stamp = some h.time_stamp;
  image = some picture.url;
  image_width = some picture.width;
  image_height = some picture.height;
}

module _ (D : Database) where
  open D use {Store, leaf, keys}

  pub record HeaderAt (s : Store) (key : String) (h : Header) : Type 0 where
    pub at_from : leaf s (messages_ref key ++ ("fromId" ∷ [])) ≡ some (text h.from_id)
    pub at_to : leaf s (messages_ref key ++ ("toId" ∷ [])) ≡ some (text h.to_id)
    pub at_time : leaf s (messages_ref key ++ ("timeStamp" ∷ [])) ≡ some (number h.time_stamp)

  -- Every message has its header, and every entry of a conversation its message.
  pub record Linked (s : Store) : Type 0 where
    pub whole :
        (key k : String) (q : KeyPath) (x : Scalar)
        → leaf s ("messages" ∷ (key ∷ (k ∷ q))) ≡ some x
        → (h : Header) × HeaderAt s key h
    pub linked :
        (uid other key : String) (x : Scalar)
        → leaf s ("users_messages" ∷ (uid ∷ (other ∷ (key ∷ [])))) ≡ some x
        → (h : Header) × HeaderAt s key h

module _ (D : Database) (laws : IsFirebase D) where
  open D use {Store, leaf, keys, update_child_values}

  message_at-header :
      (s : Store) (key : String) (h : Header)
      → HeaderAt D s key h
      → message_at D s key
        ≡ ok
            (record (with_image D s
              (messages_ref key)
              (as_string (leaf s (messages_ref key ++ ("imageUrl" ∷ []))))
              (with_text
                (as_string (leaf s (messages_ref key ++ ("message" ∷ []))))
                (record new_message { from_id = some h.from_id; to_id = some h.to_id }))) {
                  time_stamp = some h.time_stamp;
                })
  unfolding message_at ◌>>=◌
  message_at-header s key h at =
      rw
        (
          as_dictionary-leaf D laws s (messages_ref key) "fromId" [] (text h.from_id) at.at_from,
          at.at_from,
          at.at_to,
          at.at_time,
        )
        refl

  pub message_at-NoCrash : (s : Store) (key : String) → Linked D s → message_at D s key ≢ crash
  unfolding message_at ◌>>=◌
  message_at-NoCrash s key w =
      elim (as_dictionary-cases (keys s (messages_ref key)) (messages_ref key)) [
        | inl e ↦ rw e (λ c. absurd (cc))
        | inr (k, (c, e)) ↦
            let (q, (x, leaf_at)) = laws.keys-leaf s (messages_ref key) k c in
            let (h, at) = w.whole key k q x leaf_at in
            rw (message_at-header s key h at) (λ d. absurd (cc))
      ]

  pub HeaderAt-same :
      (s t : Store) (key : String) (h : Header)
      → ((k : String)
          → leaf t (messages_ref key ++ (k ∷ [])) ≡ leaf s (messages_ref key ++ (k ∷ [])))
      → HeaderAt D s key h
      → HeaderAt D t key h
  HeaderAt-same s t key h same at = record {
    at_from = same "fromId" ∙ at.at_from;
    at_to = same "toId" ∙ at.at_to;
    at_time = same "timeStamp" ∙ at.at_time;
  }

  header-value :
      (h : Header) (message : String) (picture : Option Picture)
      → (lookup "fromId" (message_value h.from_id h.to_id h.time_stamp message picture)
          ≡ some (string h.from_id))
        × ((lookup "toId" (message_value h.from_id h.to_id h.time_stamp message picture)
              ≡ some (string h.to_id))
            × (lookup "timeStamp" (message_value h.from_id h.to_id h.time_stamp message picture)
                ≡ some (double h.time_stamp)))
  header-value h message none = (refl, (refl, refl))
  header-value h message (some picture) = (refl, (refl, refl))

  -- the message that was written has its header
  pub sent-HeaderAt :
      (s : Store) (key : String) (h : Header) (message : String) (picture : Option Picture)
      → HeaderAt D
          (update_child_values s
            (messages_ref key)
            (message_value h.from_id h.to_id h.time_stamp message picture))
          key
          h
  sent-HeaderAt s key h message picture =
      let (from, (to, time)) = header-value h message picture in
      record {
        at_from = update-under D laws s (messages_ref key) _ "fromId" (string h.from_id) [] from;
        at_to = update-under D laws s (messages_ref key) _ "toId" (string h.to_id) [] to;
        at_time =
            update-under D laws s (messages_ref key) _ "timeStamp" (double h.time_stamp) [] time;
      }

  -- With the key that childByAutoId draws, which stands for no message yet, the message that was
  -- written is read as it was sent.
  pub sent-message_at :
      (s : Store) (key : String) (h : Header) (message : String) (picture : Option Picture)
      → ((q : KeyPath) → leaf s (messages_ref key ++ q) ≡ none)
      → (t : Store)
      → ((q : KeyPath)
          → leaf t ("messages" ∷ q)
            ≡ leaf
                (update_child_values s
                  (messages_ref key)
                  (message_value h.from_id h.to_id h.time_stamp message picture))
                ("messages" ∷ q))
      → message_at D t key ≡ ok (shown_message h message picture)
  sent-message_at s key h message none fresh t same =
      let d = message_value h.from_id h.to_id h.time_stamp message none in
      message_at-header t key h
        (HeaderAt-same _ t key h (λ k. same (key ∷ (k ∷ []))) (sent-HeaderAt s key h message none))
      ∙ rw
          (
            same (key ∷ ("message" ∷ []))
                ∙ update-under D laws s (messages_ref key) d "message" (string message) [] refl,
            same (key ∷ ("imageUrl" ∷ []))
                ∙ update-missing D laws s (messages_ref key) d "imageUrl" [] refl
                ∙ fresh ("imageUrl" ∷ []),
          )
          refl
  sent-message_at s key h message (some picture) fresh t same =
      let d = message_value h.from_id h.to_id h.time_stamp message (some picture) in
      message_at-header t key h (
        HeaderAt-same _ t key h (λ k. same (key ∷ (k ∷ [])))
          (sent-HeaderAt s key h message (some picture)))
      ∙ rw
          (
            same (key ∷ ("message" ∷ []))
                ∙ update-missing D laws s (messages_ref key) d "message" [] refl
                ∙ fresh ("message" ∷ []),
            same (key ∷ ("imageUrl" ∷ []))
                ∙ update-under D laws s (messages_ref key) d "imageUrl" (string picture.url) []
                    refl,
            same (key ∷ ("imageWidth" ∷ []))
                ∙ update-under D laws s (messages_ref key) d "imageWidth" (double picture.width) []
                    refl,
            same (key ∷ ("imageHeight" ∷ []))
                ∙ update-under D laws s (messages_ref key) d "imageHeight" (double picture.height)
                    [] refl,
          )
          refl
