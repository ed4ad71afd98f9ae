-- ===== src/App/Records.antt =====
-- The users that stand in requests and friendships: a record is whole, and what the searches read of it.
use flchat.Base.{◌≡◌, refl, Bool, Option, some, [], ◌∷◌, ◌++◌}
use flchat.App.Values.{String, Scalar, text, flag, KeyPath, ◌>>=◌}
use flchat.App.Database.{Database}
use flchat.App.Models.{Account, users, users_without_id}
use flchat.App.Search.{matches, reported, found_user, found_user_without_id}

-- The fields of a user.
pub record Fields : Type 0 where
  pub id : String
  pub name : String
  pub image : String
  pub email : String
  pub phone : String
  pub online : Bool

module _ (D : Database) where
  open D use {Store, leaf, keys}

  pub record UserAt (s : Store) (p : KeyPath) (u : Fields) : Type 0 where
    pub at_uid : leaf s (p ++ ("uid" ∷ [])) ≡ some (text u.id)
    pub at_name : leaf s (p ++ ("name" ∷ [])) ≡ some (text u.name)
    pub at_image : leaf s (p ++ ("image" ∷ [])) ≡ some (text u.image)
    pub at_email : leaf s (p ++ ("email" ∷ [])) ≡ some (text u.email)
    pub at_phone : leaf s (p ++ ("phone" ∷ [])) ≡ some (text u.phone)
    pub at_online : leaf s (p ++ ("online" ∷ [])) ≡ some (flag u.online)

  -- A node that has a child is a whole user.
  abbrev pub IsWhole : Store → KeyPath → Type 0
  IsWhole s p =
      (k : String) (q : KeyPath) (x : Scalar)
      → leaf s (p ++ (k ∷ q)) ≡ some x
      → (u : Fields) × UserAt s p u

  module _ (includes : String → String → Bool) (me : Option Account) (query : String) where
    pub found_user-UserAt :
        (s : Store) (p : KeyPath) (u : Fields)
        → UserAt s p u
        → found_user D includes me query s p
          ≡ reported
              (matches includes me query u.email)
              (users u.id u.name u.image u.email u.phone u.online)
    unfolding found_user ◌>>=◌
    found_user-UserAt s p u h =
        rw (h.at_uid, h.at_name, h.at_image, h.at_email, h.at_phone, h.at_online) refl

    pub found_user_without_id-UserAt :
        (s : Store) (p : KeyPath) (u : Fields)
        → UserAt s p u
        → found_user_without_id D includes me query s p
          ≡ reported
              (matches includes me query u.email)
              (users_without_id u.name u.image u.email u.phone u.online)
    unfolding found_user_without_id ◌>>=◌
    found_user_without_id-UserAt s p u h =
        rw (h.at_name, h.at_image, h.at_email, h.at_phone, h.at_online) refl
