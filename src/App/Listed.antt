-- ===== src/App/Listed.antt =====
-- The requests that stand in a user's lists, which nested observers of DataService.swift go through.
use flchat.Base.{◌≡◌, ◌↔◌, ◌⊎◌, inl, inr, true, List, [], ◌∷◌, ◌++◌, arith, Bool-cases}
use flchat.App.Values.{String, ◌==◌, eq_iff}
use flchat.App.Database.{Database, IsFirebase, contains}
use flchat.App.Service.{user_friend_request_ref}
use flchat.App.Search.{request_keys}
use flchat.App.Delivery.{request_keys-contains}

-- The key stands in the list of the user `uid` for some other user.
abbrev pub ListedRequest : (D : Database) → D.Store → String → String → Type 0
ListedRequest D s uid key =
    (other : String) × ((contains (D.keys s ("user_friend_request" ∷ (uid ∷ []))) other ≡ true)
      × (contains (D.keys s (user_friend_request_ref uid other)) key ≡ true))

contains-append_cases :
    (l m : List String) (k : String)
    → contains (l ++ m) k ≡ true
    → (contains l k ≡ true) ⊎ (contains m k ≡ true)
contains-append_cases [] m k h = inr h
contains-append_cases (j ∷ l) m k h = elim (Bool-cases (j == k)) [
  | inl e ↦ inl (ground (arith, e))
  | inr e ↦ elim (contains-append_cases l m k (ground (arith, e, h))) [
    | inl left ↦ inl (ground (arith, e, left))
    | inr right ↦ inr right
  ]
]

request_keys-source :
    (D : Database) (s : D.Store) (uid key : String) (l : List String)
    → contains (request_keys D s uid l) key ≡ true
    → (other : String) × ((contains l other ≡ true)
        × (contains (D.keys s (user_friend_request_ref uid other)) key ≡ true))
unfolding request_keys
request_keys-source D s uid key [] h = absurd (cc)
request_keys-source D s uid key (j ∷ l) h =
    elim (contains-append_cases (D.keys s (user_friend_request_ref uid j)) _ key h) [
      | inl here ↦ (j, (ground (arith, eq_iff j j), here))
      | inr later ↦
          let (other, (c, inside)) = request_keys-source D s uid key l later in
          (other, (ground (arith, c), inside))
    ]

-- `request_keys` gives exactly the requests in the user's lists.
pub request_keys_iff :
    (D : Database)
    → IsFirebase D
    → (s : D.Store) (uid key : String)
    → (contains (request_keys D s uid (D.keys s ("user_friend_request" ∷ (uid ∷ [])))) key ≡ true)
      ↔ ListedRequest D s uid key
request_keys_iff D laws s uid key = (
  request_keys-source D s uid key (D.keys s ("user_friend_request" ∷ (uid ∷ []))),
  λ (other, (c, inside)). request_keys-contains D laws s uid other key _ c inside,
)
