-- ===== src/Gateway/Sale.antt =====
-- httpgateway/gateway.go with logic/mall.go and repo/user.go: what an answer of buyGun tells.
use demo_server.Prelude.{
  ℕ, Bool, true, false, Option, none, some, List, ◌≡◌, ◌≢◌, ◌⊎◌, inl, inr, refl, arith,
  if◌then◌else◌,
}
use demo_server.Prelude.Int.{pos}
use demo_server.Prelude.Actions.{Result, ok, err}
use demo_server.Account.Signing.{JwtGo, JwtConfig, JwtClaims, ParseError, parse_token}
use demo_server.Player.State.{Gun, User}
use demo_server.Player.Mongo.{Collection, IsCollection}
use demo_server.Player.Documents.{IsUnique}
use demo_server.Player.Users.{
  UserError, user_not_found, user_already_exists, email_empty, password_hash_empty, user_id_empty,
  invalid_sequence, coins_short, gun_owned, update_fail, mongo_failed, UserStore, same_key,
  buy_gun_to_player_ware,
}
use demo_server.Player.Purchase.{buy_gun_to_player_ware-IsPurchase}
use demo_server.Player.Outcome.{IsPurchase, IsPurchase-refused}
use demo_server.Player.Mall.{
  MallDocument, MallError, token_too_old, user_error, token_refused, mall_token, get_gun_by_id,
  with_user_error, buy_gun,
}
use demo_server.Gateway.{unmarshal}
use demo_server.Gateway.Shop.{
  GunReq, PlainResp, plain_failure, classify_buy_gun_error, buy_gun_response, bought_by,
  http_buy_gun,
}

-- Only a failure of MongoDB can leave a purchase behind that was refused.
failure_told :
    (e : UserError)
    → (classify_buy_gun_error (user_error e) ≡ "buy gun failed") ⊎ (e ≢ mongo_failed)
unfolding classify_buy_gun_error
failure_told mongo_failed = inl refl
failure_told user_not_found = inl refl
failure_told user_already_exists = inl refl
failure_told email_empty = inl refl
failure_told password_hash_empty = inl refl
failure_told user_id_empty = inl refl
failure_told invalid_sequence = inl refl
failure_told update_fail = inl refl
failure_told coins_short = inr (λ h. ground (arith, h))
failure_told gun_owned = inr (λ h. ground (arith, h))

module _ {M S : Type 0} (mall : Collection M MallDocument) (users : UserStore S) (jwt : JwtGo)
    (conf : Option JwtConfig) (store : IsCollection users.collection same_key) (m : M)
    (now : ℕ) where
  open store use {documents}

  -- The token's user, the shop's gun, and the purchase of it.
  abbrev pub IsSold : GunReq → List User → List User → Type 0
  IsSold q docs docs' =
      (claims : JwtClaims) × (gun : Gun) × (parse_token jwt conf q.access_token now ≡ ok claims)
      × (get_gun_by_id mall q.gun_id m ≡ ok gun)
      × IsPurchase claims.user_id gun docs docs' (ok tt)

  abbrev pub IsSale : Option GunReq → List User → List User → PlainResp → Type 0
  IsSale none docs docs' resp = (resp.status ≡ false) × (docs' ≡ docs)
  IsSale (some q) docs docs' resp =
      (resp.status ≡ true → IsSold q docs docs')
      × (resp.status ≡ false → (docs' ≡ docs) ⊎ (resp.content ≡ "buy gun failed"))

  refused-IsSale :
      (q : GunReq) (s : S) (e : MallError)
      → IsSale (some q) (documents s) (documents s) (buy_gun_response (err e))
  unfolding buy_gun_response
  refused-IsSale q s e = (λ h. absurd (ground (arith, h)), λ h. inl refl)

  ware-IsSale :
      (q : GunReq) (s : S) (claims : JwtClaims) (gun : Gun)
      → IsUnique same_key (documents s)
      → parse_token jwt conf q.access_token now ≡ ok claims
      → get_gun_by_id mall q.gun_id m ≡ ok gun
      → (out : S × Result UserError Unit) → buy_gun_to_player_ware users claims.user_id gun s ≡ out
      → IsSale (some q) (documents s) (documents out.0) (
          buy_gun_response (elim out.1 as (λ x. Result MallError Unit) [
            | ok u ↦ ok u
            | err e ↦ err (user_error e)
          ]))
  unfolding buy_gun_response
  ware-IsSale q s claims gun unique p g (t, ok u) e = (
    λ h. (
      claims,
      gun,
      p,
      g,
      buy_gun_to_player_ware-IsPurchase users store claims.user_id gun s t (ok tt) unique e
          (λ x. ground (arith, x)),
    ),
    λ h. absurd (ground (arith, h)),
  )
  ware-IsSale q s claims gun unique p g (t, err x) e = (
    λ h. absurd (ground (arith, h)),
    λ h. elim (failure_told x) [
      | inl told ↦ inr told
      | inr other ↦
          let bought =
            buy_gun_to_player_ware-IsPurchase users store claims.user_id gun s t (err x) unique e
              (λ y. other (ground (arith, y))) in
          inl (
            IsPurchase-refused claims.user_id gun (documents s) (documents t) (err x) x refl bought)
    ],
  )

  gun_IsSale :
      (q : GunReq) (s : S) (claims : JwtClaims) (g : Result MallError Gun)
      → IsUnique same_key (documents s)
      → parse_token jwt conf q.access_token now ≡ ok claims
      → get_gun_by_id mall q.gun_id m ≡ g
      → (let out : S × Result MallError Unit = (elim g as (λ x. S × Result MallError Unit) [
        | ok gun ↦
            with_user_error mall users jwt conf (buy_gun_to_player_ware users claims.user_id gun) s
        | err e ↦ (s, err e)
      ]) in
          IsSale (some q) (documents s) (documents out.0) (buy_gun_response out.1))
  unfolding with_user_error
  gun_IsSale q s claims (err e) unique p h = refused-IsSale q s e
  gun_IsSale q s claims (ok gun) unique p h =
      ware-IsSale q s claims gun unique p h (buy_gun_to_player_ware users claims.user_id gun s) refl

  token_IsSale :
      (q : GunReq) (s : S) (p : Result ParseError JwtClaims)
      → IsUnique same_key (documents s)
      → parse_token jwt conf q.access_token now ≡ p
      → (let out : S × Result MallError Unit =
            (elim (mall_token p) as (λ x. S × Result MallError Unit) [
              | ok claims ↦
                  elim (get_gun_by_id mall q.gun_id m) as (λ x. S × Result MallError Unit) [
                    | ok gun ↦
                        with_user_error mall users jwt conf
                          (buy_gun_to_player_ware users claims.user_id gun)
                          s
                    | err e ↦ (s, err e)
                  ]
              | err e ↦ (s, err e)
            ]) in
          IsSale (some q) (documents s) (documents out.0) (buy_gun_response out.1))
  token_IsSale q s (ok claims) unique h =
      gun_IsSale q s claims (get_gun_by_id mall q.gun_id m) unique h refl
  token_IsSale q s (err e) unique h = go e.expired
    where
      go :
          (b : Bool)
          → (let claims_or : Result MallError JwtClaims =
                (if b then err token_too_old else err (token_refused e.cause)) in
              let out : S × Result MallError Unit =
                (elim claims_or as (λ x. S × Result MallError Unit) [
                  | ok claims ↦
                      elim (get_gun_by_id mall q.gun_id m) as (λ x. S × Result MallError Unit) [
                        | ok gun ↦
                            with_user_error mall users jwt conf
                              (buy_gun_to_player_ware users claims.user_id gun)
                              s
                        | err e ↦ (s, err e)
                      ]
                  | err e ↦ (s, err e)
                ]) in
              IsSale (some q) (documents s) (documents out.0) (buy_gun_response out.1))
      go true = refused-IsSale q s token_too_old
      go false = refused-IsSale q s (token_refused e.cause)

  -- The answer of buyGun can be relied on, where no two users share an id or an email: with the
  -- status true the token's user bought the gun of the shop, had its price and did not own it; with
  -- the status false no document has changed, unless the content is "buy gun failed"; and a body
  -- that is no request is refused and changes nothing.
  pub http_buy_gun-IsSale :
      (decode : List ℕ → Option GunReq) (body : List ℕ) (s : S)
      → IsUnique same_key (documents s)
      → let out : S × PlainResp = http_buy_gun mall users jwt conf decode m now body s in
        IsSale
          (unmarshal decode (record { access_token = ""; gun_id = pos 0 }) body)
          (documents s)
          (documents out.0)
          out.1
  unfolding http_buy_gun bought_by buy_gun
  http_buy_gun-IsSale decode body s unique =
      go (unmarshal decode (record { access_token = ""; gun_id = pos 0 }) body)
    where
      go :
          (o : Option GunReq)
          → (let out : S × PlainResp = (elim o as (λ x. S × PlainResp) [
            | none ↦ (s, plain_failure "invalid request")
            | some q ↦ bought_by mall users jwt conf q m now s
          ]) in
              IsSale o (documents s) (documents out.0) out.1)
      go none = (refl, refl)
      go (some q) = token_IsSale q s (parse_token jwt conf q.access_token now) unique refl
