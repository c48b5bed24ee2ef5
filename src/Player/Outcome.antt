-- ===== src/Player/Outcome.antt =====
-- logicserver/repo/user.go: what BuyGunToPlayerWare should do to the documents and answer.
use demo_server.Prelude.{
  ℕ, Bool, true, false, Option, none, some, List, [], ◌∷◌, ◌++◌, ◌⊎◌, ◌≡◌, inl, inr, refl, sym,
  subst, if◌then◌else◌, arith,
}
use demo_server.Prelude.Int.{ℤ, ltb_ℤ, ◌+ℤ◌, ◌-ℤ◌, +ℤ_parts, -ℤ_parts, eq_of_parts}
use demo_server.Prelude.Actions.{Result, ok, err}
use demo_server.Player.State.{Gun, User, guns, owns}
use demo_server.Player.Mongo.{find, update_first}
use demo_server.Player.Users.{
  UserError, user_not_found, coins_short, gun_owned, has_user_id, take_gun,
}

-- The documents and the answer of a purchase, by the user that it finds.
abbrev pub outcome_for : ℕ → Gun → List User → Option User → List User × Result UserError Unit
outcome_for user_id gun docs none = (docs, err user_not_found)
outcome_for user_id gun docs (some u) =
    if ltb_ℤ u.user_info.coins gun.price
    then (docs, err coins_short)
    else if owns gun.id (guns u)
    then (docs, err gun_owned)
    else (update_first (has_user_id user_id) (take_gun gun) docs, ok tt)

abbrev pub purchase : ℕ → Gun → List User → List User × Result UserError Unit
purchase user_id gun docs = outcome_for user_id gun docs (find (has_user_id user_id) docs)

-- What a buyer should look like afterwards: the balance and the price make up the balance of before,
-- the gun stands behind those of before, and all else of the document is as it was.
abbrev pub IsBuyer : Gun → User → User → Type 0
IsBuyer gun u u' =
    (u'.user_info.coins +ℤ gun.price ≡ u.user_info.coins)
    × (u'.gun ≡ some (guns u ++ gun ∷ []))
    × (record u' { user_info = record u'.user_info { coins = u.user_info.coins }; gun = u.gun } ≡ u)

sub_add : (a b : ℤ) → (a -ℤ b) +ℤ b ≡ a
sub_add a b = eq_of_parts ((a -ℤ b) +ℤ b) a (omega (arith, +ℤ_parts (a -ℤ b) b, -ℤ_parts a b))

take_gun-IsBuyer : (gun : Gun) (u : User) → IsBuyer gun u (take_gun gun u)
unfolding take_gun
take_gun-IsBuyer gun u = (sub_add u.user_info.coins gun.price, refl, refl)

-- One document stands for another, at the first place that passes; all others are as before.
abbrev pub IsChangedAt : (User → Bool) → (User → User → Type 0) → List User → List User → Type 0
IsChangedAt p R [] ds' = ⊥
IsChangedAt p R (d ∷ ds) [] = ⊥
IsChangedAt p R (d ∷ ds) (d' ∷ ds') =
    ((p d ≡ true) × R d d' × (ds' ≡ ds)) ⊎ ((p d ≡ false) × (d' ≡ d) × IsChangedAt p R ds ds')

update_first-IsChangedAt :
    (p : User → Bool) (f : User → User) (R : User → User → Type 0) (ds : List User) (u : User)
    → ((d : User) → R d (f d))
    → find p ds ≡ some u
    → IsChangedAt p R ds (update_first p f ds)
update_first-IsChangedAt p f R [] u r h = absurd (ground (arith, h))
update_first-IsChangedAt p f R (d ∷ ds) u r h =
    go (p d) refl (λ e. update_first-IsChangedAt p f R ds u r e) h
  where
    go :
        (b : Bool)
        → p d ≡ b
        → (find p ds ≡ some u → IsChangedAt p R ds (update_first p f ds))
        → (if b then some d else find p ds) ≡ some u
        → IsChangedAt p R (d ∷ ds) (if b then f d ∷ ds else d ∷ update_first p f ds)
    go true e more h = inl (e, r d, refl)
    go false e more h = inr (e, refl, more h)

module _ (user_id : ℕ) (gun : Gun) (docs docs' : List User) (r : Result UserError Unit) where
  -- What a purchase should do and answer, by the user who is found.
  abbrev pub IsOutcome : Option User → Type 0
  IsOutcome none = (docs' ≡ docs) × (r ≡ err user_not_found)
  IsOutcome (some u) =
      ((ltb_ℤ u.user_info.coins gun.price ≡ true) × (docs' ≡ docs) × (r ≡ err coins_short))
      ⊎ ((ltb_ℤ u.user_info.coins gun.price ≡ false)
          × (owns gun.id (guns u) ≡ true)
          × (docs' ≡ docs)
          × (r ≡ err gun_owned))
      ⊎ ((ltb_ℤ u.user_info.coins gun.price ≡ false)
          × (owns gun.id (guns u) ≡ false)
          × IsChangedAt (has_user_id user_id) (IsBuyer gun) docs docs'
          × (r ≡ ok tt))

  abbrev pub IsPurchase : Type 0
  IsPurchase = IsOutcome (find (has_user_id user_id) docs)

  pub outcome_for-IsOutcome :
      (o : Option User)
      → find (has_user_id user_id) docs ≡ o
      → docs' ≡ (outcome_for user_id gun docs o).0
      → r ≡ (outcome_for user_id gun docs o).1
      → IsOutcome o
  outcome_for-IsOutcome none f d a = (d, a)
  outcome_for-IsOutcome (some u) f d a =
      go (ltb_ℤ u.user_info.coins gun.price) (owns gun.id (guns u)) refl refl d a
    where
      go :
          (b c : Bool)
          → ltb_ℤ u.user_info.coins gun.price ≡ b
          → owns gun.id (guns u) ≡ c
          → (let want : List User × Result UserError Unit =
                if b
                then (docs, err coins_short)
                else if c
                then (docs, err gun_owned)
                else (update_first (has_user_id user_id) (take_gun gun) docs, ok tt) in
              docs' ≡ want.0 → r ≡ want.1 → IsOutcome (some u))
      go true c p q d a = inl (p, d, a)
      go false true p q d a = inr (inl (p, q, d, a))
      go false false p q d a = inr (
          inr (
            p,
            q,
            subst (IsChangedAt (has_user_id user_id) (IsBuyer gun) docs) (sym d) (
                update_first-IsChangedAt (has_user_id user_id) (take_gun gun) (IsBuyer gun) docs u
                  (take_gun-IsBuyer gun) f),
            a,
          ))

  -- A purchase that answers an error has changed nothing.
  pub IsPurchase-refused : (e : UserError) → r ≡ err e → IsPurchase → docs' ≡ docs
  IsPurchase-refused e h = go (find (has_user_id user_id) docs)
    where
      go : (o : Option User) → IsOutcome o → docs' ≡ docs
      go none a = a.0
      go (some u) (inl a) = a.1
      go (some u) (inr (inl a)) = a.2
      go (some u) (inr (inr a)) = absurd (ground (arith, h, a.3))
