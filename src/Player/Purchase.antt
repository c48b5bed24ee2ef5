-- ===== src/Player/Purchase.antt =====
-- logicserver/repo/user.go: BuyGunToPlayerWare against its description.
use demo_server.Prelude.{
  ℕ, true, false, Option, none, some, List, ◌≡◌, ◌≢◌, inl, inr, refl, sym, ap, subst, ◌∙◌,
  if◌then◌else◌, arith, ◌==◌,
}
use demo_server.Prelude.Actions.{Result, ok, err}
use demo_server.Player.State.{Gun, User}
use demo_server.Player.Mongo.{IsCollection, find, update_first, matched}
use demo_server.Player.Documents.{IsUnique, find_passes}
use demo_server.Player.Narrow.{IsUnique-Narrows, Narrows}
use demo_server.Player.Users.{
  UserError, mongo_failed, UserStore, has_user_id, same_key, can_buy, take_gun, buy_failure,
  purchase_result, buy_gun_to_player_ware,
}
use demo_server.Player.Outcome.{outcome_for, purchase, IsPurchase, outcome_for-IsOutcome}

can_buy-narrow :
    (user_id : ℕ) (gun : Gun) (u : User)
    → has_user_id user_id u ≡ false
    → can_buy user_id gun u ≡ false
unfolding can_buy
can_buy-narrow user_id gun u h = ground (arith, h)

same_id-alone :
    (user_id : ℕ) (d e : User)
    → has_user_id user_id d ≡ true
    → same_key e d ≡ false
    → has_user_id user_id e ≡ false
same_id-alone user_id d e t c = ground (arith, t, c)

-- The answer after an update that matched n documents, where FindOne answers r.
abbrev answer : Gun → ℕ → Option (Option User) → Result UserError Unit
answer gun n r = if n == 0 then err (buy_failure gun r) else ok tt

module _ (user_id : ℕ) (gun : Gun) (docs : List User) where
  abbrev IsDone : List User → Result UserError Unit → Type 0
  IsDone docs' r = (docs' ≡ (purchase user_id gun docs).0) × (r ≡ (purchase user_id gun docs).1)

  -- The description at the user who is found.
  outcome_failed :
      (d : User)
      → has_user_id user_id d ≡ true
      → can_buy user_id gun d ≡ false
      → (docs ≡ (outcome_for user_id gun docs (some d)).0)
        × (err (buy_failure gun (some (some d))) ≡ (outcome_for user_id gun docs (some d)).1)
  unfolding buy_failure can_buy
  outcome_failed d t c = ground (arith, t, c)

  outcome_bought :
      (d : User)
      → can_buy user_id gun d ≡ true
      → (update_first (has_user_id user_id) (take_gun gun) docs
          ≡ (outcome_for user_id gun docs (some d)).0)
        × (ok tt ≡ (outcome_for user_id gun docs (some d)).1)
  unfolding can_buy
  outcome_bought d c = ground (arith, c)

  module _ (docs' : List User) (n : ℕ) (r : Option (Option User))
      (look : (x : Option User) → r ≡ some x → x ≡ find (has_user_id user_id) docs')
      (there : answer gun n r ≢ err mongo_failed) where
    -- The update matched nothing: the user who is found tells why.
    answer_failed :
        docs' ≡ docs
        → n ≡ 0
        → answer gun n r ≡ err (buy_failure gun (some (find (has_user_id user_id) docs)))
    unfolding buy_failure
    answer_failed e m = go r look there
      where
        go :
            (r : Option (Option User))
            → ((x : Option User) → r ≡ some x → x ≡ find (has_user_id user_id) docs')
            → answer gun n r ≢ err mongo_failed
            → answer gun n r ≡ err (buy_failure gun (some (find (has_user_id user_id) docs)))
        go none look there = ground (arith, m, there)
        go (some x) look there =
            let same : x ≡ find (has_user_id user_id) docs =
              look x refl ∙ ap (λ ds. find (has_user_id user_id) ds) e in
            let zero_matched : (n == 0) ≡ true = ground (arith, m) in rw (zero_matched, same) refl

    answer_bought : n ≡ 1 → answer gun n r ≡ ok tt
    answer_bought m = ground (arith, m)

    answer-IsDone :
        Narrows same_key
          (has_user_id user_id)
          (can_buy user_id gun)
          (take_gun gun)
          (can_buy-narrow user_id gun)
          (same_id-alone user_id)
          docs
        → docs' ≡ update_first (can_buy user_id gun) (take_gun gun) docs
        → n ≡ matched (can_buy user_id gun) docs
        → IsDone docs' (answer gun n r)
    unfolding buy_failure
    answer-IsDone narrows e m = elim narrows [
      | inl (fp, fq, uq) ↦ rw fp (
        e ∙ uq,
        answer_failed (e ∙ uq) (ground (arith, fq)) ∙ ap (λ o. err (buy_failure gun (some o))) fp,
      )
      | inr (d, fp, inl (qd, fq, uq)) ↦
          let (changed, done) = outcome_bought d qd in
          rw fp (e ∙ uq ∙ changed, answer_bought (ground (arith, fq, m)) ∙ done)
      | inr (d, fp, inr (qd, fq, uq)) ↦
          let (same, why) = outcome_failed d (find_passes (has_user_id user_id) docs d fp) qd in
          rw fp (
            e ∙ uq ∙ same,
            answer_failed (e ∙ uq) (ground (arith, fq))
                ∙ ap (λ o. err (buy_failure gun (some o))) fp
                ∙ why,
          )
    ]

module _ {S : Type 0} (users : UserStore S) (store : IsCollection users.collection same_key) where
  open store use {documents}

  -- The documents and the answer after a purchase, by the change that the call hands to MongoDB.
  buy_gun_to_player_ware-IsDone :
      (user_id : ℕ) (gun : Gun) (s s' : S) (r : Result UserError Unit)
      → IsUnique same_key (documents s)
      → buy_gun_to_player_ware users user_id gun s ≡ (s', r)
      → r ≢ err mongo_failed
      → IsDone user_id gun (documents s) (documents s') r
  unfolding buy_gun_to_player_ware purchase_result
  buy_gun_to_player_ware-IsDone user_id gun s s' r unique e there =
      go (users.collection.update_one (can_buy user_id gun) (take_gun gun) s) refl (ap (λ x. x.0) e)
        (ap (λ x. x.1) e)
    where
      go :
          (u : S × Option ℕ)
          → users.collection.update_one (can_buy user_id gun) (take_gun gun) s ≡ u
          → u.0 ≡ s'
          → purchase_result users user_id gun (u.0) (u.1) ≡ r
          → IsDone user_id gun (documents s) (documents s') r
      go (t, none) w a b = absurd (there (sym b))
      go (t, some n) w a b =
          let (changed, count) =
            store.update_one-documents (can_buy user_id gun) (take_gun gun) s t n w in
          let look = users.collection.find_one (has_user_id user_id) t in
          let bought : IsDone user_id gun (documents s) (documents t) (answer gun n look) =
            answer-IsDone user_id gun (documents s) (documents t) n look
              (store.find_one-documents (has_user_id user_id) t) (λ x. there (sym b ∙ x))
              (IsUnique-Narrows same_key (has_user_id user_id) (can_buy user_id gun) (take_gun gun)
                (can_buy-narrow user_id gun) (same_id-alone user_id) (documents s) unique)
              changed count in
          subst (λ x. IsDone user_id gun (documents s) (documents x) r) a
            (subst (λ x. IsDone user_id gun (documents s) (documents t) x) b bought)

  -- Without an error of MongoDB, and where no two users share an id or an email, a purchase does
  -- exactly this: where there is no such user, the coins are short or the gun is owned, it answers
  -- that and no document changes; else the one user with the id pays the price, so that the balance
  -- and the price make up the balance of before, gets the gun behind those it had, and nothing else
  -- of that document and no other document changes.
  pub buy_gun_to_player_ware-IsPurchase :
      (user_id : ℕ) (gun : Gun) (s s' : S) (r : Result UserError Unit)
      → IsUnique same_key (documents s)
      → buy_gun_to_player_ware users user_id gun s ≡ (s', r)
      → r ≢ err mongo_failed
      → IsPurchase user_id gun (documents s) (documents s') r
  buy_gun_to_player_ware-IsPurchase user_id gun s s' r unique e there =
      let (d, a) = buy_gun_to_player_ware-IsDone user_id gun s s' r unique e there in
      outcome_for-IsOutcome user_id gun (documents s) (documents s') r
        (find (has_user_id user_id) (documents s)) refl d a
