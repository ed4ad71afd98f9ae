-- ===== src/App/ConversationKept.antt =====
-- `handleSend` keeps the invariant of the conversations, and both users see the message.
use flchat.Base.{
  ◌≡◌, refl, sym, subst, ◌∙◌, ◌⊎◌, inl, inr, ℕ, Bool, true, false, Option, none, some, [], ◌∷◌,
  ◌++◌, arith, Bool-cases,
}
use flchat.App.Values.{String, ◌==◌, eq_iff, Scalar, number, KeyPath, ok, ◌>>=◌}
use flchat.App.Database.{Database, IsFirebase, merged}
use flchat.App.Models.{Account, Message}
use flchat.App.Service.{entry, update, messages_ref, users_messages_ref}
use flchat.App.Messages.{
  Picture, message_value, Sent, index_message, handle_send, message_at, observ_user_messages,
}
use flchat.App.Observe.{found, In, Returns, Ends, observe-growing, found-In}
use flchat.App.Kept.{entry-leaf, update-other_table, merged-other_record}
use flchat.App.Conversation.{
  Header, HeaderAt, HeaderAt-same, Linked, all_sent, shown_message, message_at-NoCrash,
  sent-HeaderAt, sent-message_at,
}

-- an entry of a conversation after the write of another
entry-cases :
    (u o uid other key key' : String) (old : Option Scalar) (x : Scalar)
    → merged (users_messages_ref u o) (entry key) (users_messages_ref uid other ++ (key' ∷ [])) old
      ≡ some x
    → (key ≡ key') ⊎ (old ≡ some x)
entry-cases u o uid other key key' old x h = elim (Bool-cases (key == key')) [
  | inl e ↦ inl ((eq_iff key key').0 e)
  | inr e ↦ inr (ground (arith, e, h))
]

entry-merged :
    (u o key : String) (old : Option Scalar)
    → old ≡ some (number 1)
    → merged (users_messages_ref u o) (entry key) (users_messages_ref o u ++ (key ∷ [])) old
      ≡ some (number 1)
entry-merged u o key old h = ground (arith, h, eq_iff key key)

module _ (D : Database) (laws : IsFirebase D) where
  open D use {Store, leaf, keys, update_child_values}

  abbrev stored : Store → String → Header → String → Option Picture → Store
  stored s key h message picture =
      update_child_values s (messages_ref key)
        (message_value h.from_id h.to_id h.time_stamp message picture)

  stored-header :
      (s : Store) (key : String) (h : Header) (message : String) (picture : Option Picture)
      (key' : String) (h' : Header)
      → HeaderAt D s key' h'
      → (h'' : Header) × HeaderAt D (stored s key h message picture) key' h''
  stored-header s key h message picture key' h' at = elim (Bool-cases (key == key')) [
    | inl e ↦ (
      h,
      subst (λ (k : String). HeaderAt D (stored s key h message picture) k h)
          ((eq_iff key key').0 e) (sent-HeaderAt D laws s key h message picture),
    )
    | inr e ↦ (
      h',
      HeaderAt-same D laws s _ key' h'
          (λ k.
            laws.leaf-update s (messages_ref key) _ _
            ∙ merged-other_record D laws "messages" key key' _ _ _ e)
          at,
    )
  ]

  stored-Linked :
      (s : Store) (key : String) (h : Header) (message : String) (picture : Option Picture)
      → Linked D s
      → Linked D (stored s key h message picture)
  stored-Linked s key h message picture w = record {
    whole = λ key' k q x e. elim (Bool-cases (key == key')) [
      | inl same ↦ (
        h,
        subst (λ (j : String). HeaderAt D (stored s key h message picture) j h)
            ((eq_iff key key').0 same) (sent-HeaderAt D laws s key h message picture),
      )
      | inr apart ↦
          let (h', at) = w.whole key' k q x (
            sym (
              laws.leaf-update s (messages_ref key) _ _
              ∙ merged-other_record D laws "messages" key key' _ _ _ apart)
            ∙ e) in
          stored-header s key h message picture key' h' at
    ];
    linked = λ uid other key' x e.
        let (h', at) =
          w.linked uid other key' x
            (sym (update-other_table D laws true s "messages" "users_messages" _ _ _ refl) ∙ e) in
        stored-header s key h message picture key' h' at;
  }

  entry-HeaderAt :
      (accepted : Bool) (s : Store) (u o key key' : String) (h : Header)
      → HeaderAt D s key' h
      → HeaderAt D (update D accepted s (users_messages_ref u o) (entry key)) key' h
  entry-HeaderAt accepted s u o key key' h at =
      HeaderAt-same D laws s _ key' h
        (λ k. update-other_table D laws accepted s "users_messages" "messages" _ _ _ refl) at

  entry-Linked :
      (accepted : Bool) (s : Store) (u o key : String) (h : Header)
      → HeaderAt D s key h
      → Linked D s
      → Linked D (update D accepted s (users_messages_ref u o) (entry key))
  entry-Linked false s u o key h at w = w
  entry-Linked true s u o key h at w = record {
    whole = λ key' k q x e.
        let (h', at') =
          w.whole key' k q x
            (sym (update-other_table D laws true s "users_messages" "messages" _ _ _ refl) ∙ e) in
        (h', entry-HeaderAt true s u o key key' h' at');
    linked = λ uid other key' x e.
        elim (entry-cases u o uid other key key' _ x
          (sym (laws.leaf-update s (users_messages_ref u o) (entry key) _) ∙ e)) [
            | inl same ↦ (
              h,
              subst
                  (λ (j : String).
                    HeaderAt D (update D true s (users_messages_ref u o) (entry key)) j h)
                  same (entry-HeaderAt true s u o key key h at),
            )
            | inr old ↦
                let (h', at') = w.linked uid other key' x old in
                (h', entry-HeaderAt true s u o key key' h' at')
          ];
  }

  index-Linked :
      (sent : Sent) (s : Store) (from_id to_id key : String) (h : Header)
      → HeaderAt D s key h
      → Linked D s
      → Linked D (index_message D sent s from_id to_id key)
  index-Linked sent s from_id to_id key h at w =
      entry-Linked sent.recipient _ to_id from_id key h
        (entry-HeaderAt sent.own s from_id to_id key key h at)
        (entry-Linked sent.own s from_id to_id key h at w)

  -- `handleSend` of a user that is logged in, to a chosen user, returns, whatever the server answers to its
  -- three writes, and keeps the invariant: each message has its sender, its recipient and its time, and
  -- each entry in a conversation has a message that is there.
  pub handle_send-Linked :
      (a : Account) (other message : String) (picture : Option Picture) (time : ℕ) (key : String)
      (sent : Sent) (s : Store)
      → Linked D s
      → Returns (handle_send D (some a) (some other) message picture time key sent s) (Linked D)
  unfolding handle_send ◌>>=◌
  handle_send-Linked a other message picture time key sent s w = elim (Bool-cases sent.message) [
    | inl e ↦
        let h : Header = record { from_id = a.uid; to_id = other; time_stamp = time } in
        (
          index_message D sent (stored s key h message picture) a.uid other key,
          (
            rw e refl,
            index-Linked sent _ a.uid other key h (sent-HeaderAt D laws s key h message picture)
                (stored-Linked s key h message picture w),
          ),
        )
    | inr e ↦ (s, (rw e refl, w))
  ]

  messages_complete :
      (a : Account) (other key : String) (m : Message) (s : Store)
      → Linked D s
      → leaf s (users_messages_ref a.uid other ++ (key ∷ [])) ≡ some (number 1)
      → message_at D s key ≡ ok m
      → Ends (observ_user_messages D (some a) (some other) s) (In m)
  unfolding observ_user_messages ◌>>=◌
  messages_complete a other key m s w listed at =
      let l = keys s (users_messages_ref a.uid other) in
      (
        found (message_at D s) l,
        (
          observe-growing (message_at D s) l [] (λ k. message_at-NoCrash D laws s k w),
          found-In (message_at D s) l key m
              (laws.contains-keys s (users_messages_ref a.uid other) key [] (number 1) listed) at,
        ),
      )

  -- On a database where each message has its sender, recipient and time and each entry of a conversation
  -- its message, `handleSend` of a user that is logged in, under a key that is not used for a message
  -- yet, returns where the server accepts its three writes, and then `observUserMessages` ends without
  -- a crash for the sender and for the recipient, and both get the message with its sender, recipient,
  -- time and text, or with the picture's address and size in place of the text.
  pub handle_send-shown :
      (a : Account) (other : String) (email : Option String) (message : String)
      (picture : Option Picture) (time : ℕ) (key : String) (s : Store)
      → Linked D s
      → ((q : KeyPath) → leaf s (messages_ref key ++ q) ≡ none)
      → Returns (handle_send D (some a) (some other) message picture time key all_sent s) (λ t.
        Ends (observ_user_messages D (some a) (some other) t) (
          In (
            shown_message
              (record { from_id = a.uid; to_id = other; time_stamp = time })
              message
              picture))
        × Ends
            (observ_user_messages D (some (record { uid = other; email = email })) (some a.uid) t)
            (In (
              shown_message
                (record { from_id = a.uid; to_id = other; time_stamp = time })
                message
                picture)))
  unfolding handle_send ◌>>=◌
  handle_send-shown a other email message picture time key s w fresh =
      let h : Header = record { from_id = a.uid; to_id = other; time_stamp = time } in
      let s₁ = stored s key h message picture in
      let s₂ = update D true s₁ (users_messages_ref a.uid other) (entry key) in
      let t = index_message D all_sent s₁ a.uid other key in
      let w' =
        index-Linked all_sent s₁ a.uid other key h (sent-HeaderAt D laws s key h message picture)
          (stored-Linked s key h message picture w) in
      let shown = sent-message_at D laws s key h message picture fresh t (λ q.
        update-other_table D laws true s₂ "users_messages" "messages" _ _ q refl
        ∙ update-other_table D laws true s₁ "users_messages" "messages" _ _ q refl) in
      (
        t,
        (
          refl,
          (
            messages_complete a other key _ t w'
                (laws.leaf-update s₂ (users_messages_ref other a.uid) (entry key) _
                  ∙ entry-merged other a.uid key _
                      (entry-leaf D laws s₁ (users_messages_ref a.uid other) key))
                shown,
            messages_complete (record { uid = other; email = email }) a.uid key _ t w'
                (entry-leaf D laws s₂ (users_messages_ref other a.uid) key) shown,
          ),
        ),
      )
