-- ===== src/App/Observe.antt =====
-- What the completion block of a search gets: the lists that grow towards the list of all that is
-- found.
use flchat.Base.{
  ◌≡◌, refl, sym, ap, ◌≢◌, ◌⊎◌, inl, inr, true, List, [], ◌∷◌, ◌++◌, arith, Bool-cases,
}
use flchat.App.Values.{String, ◌==◌, eq_iff, Attempt, crash, skip, ok, ◌>>=◌}
use flchat.App.Database.{contains}
use flchat.App.Search.{observe}

pub Attempt-cases {ℓ} :
    {A : Type ℓ} (o : Attempt A) → (o ≡ crash) ⊎ ((o ≡ skip) ⊎ ((a : A) × (o ≡ ok a)))
Attempt-cases crash = inl refl
Attempt-cases skip = inr (inl refl)
Attempt-cases (ok a) = inr (inr (a, refl))

pub bind-ok {ℓ κ} :
    {A : Type ℓ} {B : Type κ} (m : Attempt A) (f : A → Attempt B) (b : B)
    → (m >>= f) ≡ ok b
    → (a : A) × ((m ≡ ok a) × (f a ≡ ok b))
unfolding ◌>>=◌
bind-ok crash f b h = absurd (cc)
bind-ok skip f b h = absurd (cc)
bind-ok (ok a) f b h = (a, (refl, h))

-- The code returns, and what it returns satisfies the predicate.
abbrev pub Returns : {A : Type 0} → Attempt A → (A → Type 0) → Type 0
Returns {A} r P = (a : A) × ((r ≡ ok a) × P a)

module _ {A : Type 0} where
  -- what the handler finds, in the order of the keys
  abbrev add : Attempt A → List A → List A
  add crash us = us
  add skip us = us
  add (ok u) us = u ∷ us

  unfoldable pub found : (String → Attempt A) → List String → List A
  found handler [] = []
  found handler (key ∷ rest) = add (handler key) (found handler rest)

  unfoldable pub growing : List A → List A → List (List A)
  growing array [] = []
  growing array (u ∷ us) = (array ++ (u ∷ [])) ∷ growing (array ++ (u ∷ [])) us

  abbrev pub In : A → List A → Type 0
  In u [] = ⊥
  In u (v ∷ us) = (u ≡ v) ⊎ In u us

  pub observe-growing :
      (handler : String → Attempt A) (keys : List String) (array : List A)
      → ((key : String) → handler key ≢ crash)
      → observe handler keys array ≡ ok (growing array (found handler keys))
  unfolding observe found growing ◌>>=◌
  observe-growing handler [] array h = refl
  observe-growing handler (key ∷ rest) array h = elim (Attempt-cases (handler key)) [
    | inl e ↦ absurd (h key e)
    | inr (inl e) ↦ rw (e, observe, found) (observe-growing handler rest array h)
    | inr (inr (u, e)) ↦
        rw (e, observe, found) (rw (observe-growing handler rest (array ++ (u ∷ [])) h) refl)
  ]

  pub found-In :
      (handler : String → Attempt A) (keys : List String) (key : String) (u : A)
      → contains keys key ≡ true
      → handler key ≡ ok u
      → In u (found handler keys)
  unfolding found
  found-In handler [] key u c h = absurd (cc)
  found-In handler (j ∷ rest) key u c h = elim (Bool-cases (j == key)) [
    | inl e ↦ rw (ap handler ((eq_iff j key).0 e), h) (inl refl)
    | inr e ↦
        let later : In u (found handler rest) =
          found-In handler rest key u (ground (arith, e, c)) h in
        elim (Attempt-cases (handler j)) [
          | inl d ↦ rw d later
          | inr (inl d) ↦ rw d later
          | inr (inr (v, d)) ↦ rw d (inr later)
        ]
  ]

  add-source : (o : Attempt A) (us : List A) (u : A) → In u (add o us) → In u us ⊎ (o ≡ ok u)
  add-source crash us u m = inl m
  add-source skip us u m = inl m
  add-source (ok v) us u (inl e) = inr (ap ok (sym e))
  add-source (ok v) us u (inr m) = inl m

  pub found-source :
      (handler : String → Attempt A) (keys : List String) (u : A)
      → In u (found handler keys)
      → (key : String) × ((contains keys key ≡ true) × (handler key ≡ ok u))
  unfolding found
  found-source handler [] u m = elim m [ ]
  found-source handler (j ∷ rest) u m = elim (add-source (handler j) (found handler rest) u m) [
    | inl later ↦
        let (key, (c, h)) = found-source handler rest u later in (key, (ground (arith, c), h))
    | inr h ↦ (j, (ground (arith, eq_iff j j), h))
  ]

-- The search ends without a crash, its completion block gets lists that grow to the list of all that is
-- found, and this list satisfies the predicate.
abbrev pub Ends : {A : Type 0} → Attempt (List (List A)) → (List A → Type 0) → Type 0
Ends {A} r P = (us : List A) × ((r ≡ ok (growing [] us)) × P us)
