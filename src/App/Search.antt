-- ===== src/App/Search.antt =====
-- Services/DataService.swift: the searches. The answers of the database come in the order of the
-- questions; `includes` is String.contains of Foundation.
use flchat.Base.{
  Bool, true, false, ◌&&◌, not, Option, none, some, List, [], ◌∷◌, ◌++◌, if◌then◌else◌,
}
use flchat.App.Values.{
  String, ◌==◌, KeyPath, Attempt, crash, skip, ok, ◌>>=◌, unwrap, guard, as_string, as_bool,
}
use flchat.App.Database.{Database}
use flchat.App.Models.{Account, Users, users, users_without_id}
use flchat.App.Service.{
  current_uid, users_ref, friend_request_ref, user_friend_request_ref, friends_ref,
  user_friends_ref,
}

-- email != Auth.auth().currentUser?.email
abbrev pub not_own : Option Account → String → Bool
not_own none email = true
not_own (some a) email = elim a.email [ none ↦ true | some own ↦ not (email == own) ]

-- Auth.auth().currentUser?.uid == dict["fromId"] as? String
abbrev pub same_uid : Option Account → Option String → Bool
same_uid none none = true
same_uid none (some uid) = false
same_uid (some a) none = false
same_uid (some a) (some uid) = a.uid == uid

-- guard snapshot.value as? Dictionary, by the children of the snapshot
abbrev pub as_dictionary : List String → KeyPath → Attempt KeyPath
as_dictionary [] p = skip
as_dictionary (k ∷ rest) p = ok p

-- The array grows, and the completion block gets it after each element that is added: the result is
-- the list of what it gets.
unfoldable pub observe {ℓ} :
    {A : Type ℓ} → (String → Attempt A) → List String → List A → Attempt (List (List A))
observe handler [] array = ok []
observe handler (key ∷ rest) array = elim (handler key) [
  | crash ↦ crash
  | skip ↦ observe handler rest array
  | ok u ↦ observe handler rest (array ++ (u ∷ [])) >>= λ later. ok ((array ++ (u ∷ [])) ∷ later)
]

abbrev pub reported : Bool → Users → Attempt Users
reported true u = ok u
reported false u = skip

module _ (includes : String → String → Bool) where
  unfoldable pub matches : Option Account → String → String → Bool
  matches me query email =
      if query == ""
      then (if not_own me email then true else false)
      else (if includes email query && not_own me email then true else false)

module _ (D : Database) where
  open D use {Store, leaf, keys}

  abbrev pub read_string : Store → KeyPath → String → Attempt String
  read_string s p k = unwrap (as_string (leaf s (p ++ (k ∷ []))))

  abbrev pub read_bool : Store → KeyPath → String → Attempt Bool
  read_bool s p k = unwrap (as_bool (leaf s (p ++ (k ∷ []))))

  abbrev pub switch_user_recipient : Option Account → Store → KeyPath → String
  switch_user_recipient me s p =
      if same_uid me (as_string (leaf s (p ++ ("fromId" ∷ [])))) then "toIdUser" else "fromIdUser"

  -- the keys that the inner observers give, in the order of the outer observer
  unfoldable pub request_keys : Store → String → List String → List String
  request_keys s uid [] = []
  request_keys s uid (other ∷ rest) =
      keys s (user_friend_request_ref uid other) ++ request_keys s uid rest

module _ (D : Database) (includes : String → String → Bool) where
  open D use {Store, keys}

  -- the block that reads a user and adds it where it matches
  unfoldable pub found_user : Option Account → String → Store → KeyPath → Attempt Users
  unfolding matches
  found_user me query s p = do
    id ← read_string D s p "uid"
    name ← read_string D s p "name"
    image ← read_string D s p "image"
    email ← read_string D s p "email"
    phone ← read_string D s p "phone"
    status ← read_bool D s p "online"
    reported (matches includes me query email) (users id name image email phone status)

  unfoldable pub found_user_without_id : Option Account → String → Store → KeyPath → Attempt Users
  unfolding matches
  found_user_without_id me query s p = do
    name ← read_string D s p "name"
    image ← read_string D s p "image"
    email ← read_string D s p "email"
    phone ← read_string D s p "phone"
    status ← read_bool D s p "online"
    reported (matches includes me query email) (users_without_id name image email phone status)

  unfoldable pub friend_of : Option Account → String → Store → String → Attempt Users
  unfolding found_user
  friend_of me query s key_id = do
    p ← as_dictionary (keys s (friends_ref key_id)) (friends_ref key_id)
    let user = p ++ (switch_user_recipient D me s p ∷ [])
    q ← as_dictionary (keys s user) user
    found_user me query s q

  unfoldable pub get_all_frinds : Option Account → String → Store → Attempt (List (List Users))
  unfolding friend_of observe
  get_all_frinds me query s = do
    account ← guard me
    observe (friend_of me query s) (keys s (user_friends_ref account.uid)) []

  unfoldable pub recipient_of : Option Account → String → Store → String → Attempt Users
  unfolding found_user_without_id
  recipient_of me query s request_id = do
    let user = friend_request_ref request_id ++ ("toIdUser" ∷ [])
    p ← as_dictionary (keys s user) user
    found_user_without_id me query s p

  unfoldable pub sender_of : Option Account → String → Store → String → Attempt Users
  unfolding found_user
  sender_of me query s request_id = do
    let user = friend_request_ref request_id ++ ("fromIdUser" ∷ [])
    p ← as_dictionary (keys s user) user
    found_user me query s p

  unfoldable pub get_users_whom_friend_request_been_send :
      Option Account → String → Store → Attempt (List (List Users))
  unfolding recipient_of observe request_keys
  get_users_whom_friend_request_been_send me query s = do
    account ← guard me
    observe (recipient_of me query s)
        (request_keys D s account.uid (keys s ("user_friend_request" ∷ (account.uid ∷ [])))) []

  unfoldable pub get_users_who_send_request_to_friends :
      Option Account → String → Store → Attempt (List (List Users))
  unfolding sender_of observe request_keys
  get_users_who_send_request_to_friends me query s = do
    to_id ← current_uid me
    observe (sender_of me query s)
        (request_keys D s to_id (keys s ("user_friend_request" ∷ (to_id ∷ [])))) []

  unfoldable pub search_user : Option Account → String → Store → List String → Attempt (List Users)
  unfolding matches
  search_user me query s [] = ok []
  search_user me query s (id ∷ rest) = do
    name ← read_string D s (users_ref id) "name"
    image ← read_string D s (users_ref id) "image"
    email ← read_string D s (users_ref id) "email"
    phone ← read_string D s (users_ref id) "phone"
    status ← read_bool D s (users_ref id) "online"
    later ← search_user me query s rest
    ok (
        if matches includes me query email
        then users id name image email phone status ∷ later
        else later)

  -- The completion block runs once, with all users.
  unfoldable pub get_users_from_database : Option Account → String → Store → Attempt (List Users)
  unfolding search_user
  get_users_from_database me query s = search_user me query s (keys s ("users" ∷ []))
