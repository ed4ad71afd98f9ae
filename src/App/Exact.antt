-- ===== src/App/Exact.antt =====
-- The searches find exactly the users that they are for: those in the records, other than the user, whose
-- email contains the query.
use flchat.Base.{◌≡◌, ◌≢◌, ◌⊎◌, Bool, true, some, [], ◌∷◌, ◌++◌}
use flchat.App.Values.{String, text}
use flchat.App.Database.{Database}
use flchat.App.Models.{Account}
use flchat.App.Service.{friends_ref}
use flchat.App.Records.{Fields, UserAt}
use flchat.App.WellFormed.{WellFormed, side}

-- Another user's email that the query fits.
abbrev pub Matching : (String → String → Bool) → Account → String → String → Type 0
Matching includes a query email =
    (a.email ≢ some email) × ((query ≡ "") ⊎ (includes email query ≡ true))

-- The field of the friendship `key` that holds the other user than `a`: the recipient, where the record
-- says that it comes from `a`, and otherwise the sender.
abbrev pub OtherSide : (D : Database) → Account → D.Store → String → String → Type 0
OtherSide D a s key name =
    ((D.leaf s (friends_ref key ++ ("fromId" ∷ [])) ≡ some (text a.uid)) × (name ≡ "toIdUser"))
    ⊎ ((D.leaf s (friends_ref key ++ ("fromId" ∷ [])) ≢ some (text a.uid)) × (name ≡ "fromIdUser"))

-- The user on that side.
abbrev pub OtherUser : (D : Database) → Account → D.Store → String → Fields → Type 0
OtherUser D a s key u =
    (name : String) × (OtherSide D a s key name × UserAt D s (side (friends_ref key) name) u)
