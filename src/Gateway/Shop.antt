-- ===== src/Gateway/Shop.antt =====
-- httpgateway/gateway.go: the shop, the wardrobe and the profile over HTTP.
use demo_server.Prelude.{ℕ, String, Bool, true, false, Option, none, some, List, []}
use demo_server.Prelude.Int.{ℤ, pos}
use demo_server.Prelude.Actions.{Result, ok, err}
use demo_server.Account.Signing.{JwtGo, JwtConfig}
use demo_server.Player.State.{Gun}
use demo_server.Player.Mongo.{Collection}
use demo_server.Player.Users.{coins_short, gun_owned, UserStore}
use demo_server.Player.Mall.{
  MallDocument, MallError, token_too_old, gun_not_found, user_error, get_mall_all_details, buy_gun,
}
use demo_server.Player.Info.{InfoError, equip_gun, get_equip_gun}
use demo_server.Gateway.{unmarshal}

pub record GunReq : Type 0 where
  pub access_token : String
  pub gun_id : ℤ

-- A status and a content, as of buyGunResp and equipGunResp.
pub record PlainResp : Type 0 where
  pub status : Bool
  pub content : String

abbrev pub plain_failure : String → PlainResp
plain_failure content = record { status = false; content = content }

-- An error whose text is not one of four is not told.
unfoldable pub classify_buy_gun_error : MallError → String
classify_buy_gun_error token_too_old = "unauthorized"
classify_buy_gun_error gun_not_found = "invalid gun"
classify_buy_gun_error (user_error coins_short) = "not enough coins"
classify_buy_gun_error (user_error gun_owned) = "gun already owned"
classify_buy_gun_error e = "buy gun failed"

unfoldable pub buy_gun_response : Result MallError Unit → PlainResp
unfolding classify_buy_gun_error
buy_gun_response (ok u) = record { status = true; content = "ok" }
buy_gun_response (err e) = plain_failure (classify_buy_gun_error e)

unfoldable pub equip_gun_response : Result InfoError Unit → PlainResp
equip_gun_response (ok u) = record { status = true; content = "ok" }
equip_gun_response (err e) = plain_failure "equip fail"

-- getMallDetailsResp
pub record MallResp : Type 0 where
  pub status : Bool
  pub content : String
  pub gun_list : List Gun

unfoldable pub mall_response : Result MallError (List Gun) → MallResp
mall_response (ok guns) = record { status = true; content = "mall unavailable"; gun_list = guns }
mall_response (err e) = record { status = false; content = "mall unavailable"; gun_list = [] }

-- getEquipGunResp
pub record EquippedResp : Type 0 where
  pub status : Bool
  pub content : String
  pub gun_id : ℤ

unfoldable pub equipped_response : Result InfoError ℤ → EquippedResp
equipped_response (ok id) = record { status = true; content = "ok"; gun_id = id }
equipped_response (err e) = record { status = false; content = "equip fail"; gun_id = pos 0 }

pub record PlayerReq : Type 0 where
  pub access_token : String
  pub player_id : ℕ

module _ {M S : Type 0} (mall : Collection M MallDocument) (users : UserStore S) (jwt : JwtGo)
    (conf : Option JwtConfig) where
  unfoldable pub http_get_mall_details : M → MallResp
  unfolding mall_response
  http_get_mall_details m = mall_response (get_mall_all_details mall m)

  unfoldable pub bought_by : GunReq → M → ℕ → S → S × PlainResp
  unfolding buy_gun_response
  bought_by q m now s =
      let (s', r) = buy_gun mall users jwt conf q.access_token q.gun_id m now s in
      (s', buy_gun_response r)

  unfoldable pub http_buy_gun : (List ℕ → Option GunReq) → M → ℕ → List ℕ → S → S × PlainResp
  unfolding unmarshal bought_by
  http_buy_gun decode m now body s =
      elim (unmarshal decode (record { access_token = ""; gun_id = pos 0 }) body) [
        | none ↦ (s, plain_failure "invalid request")
        | some q ↦ bought_by q m now s
      ]

  unfoldable pub http_equip_gun : (List ℕ → Option GunReq) → ℕ → List ℕ → S → S × PlainResp
  unfolding unmarshal equip_gun_response
  http_equip_gun decode now body s =
      elim (unmarshal decode (record { access_token = ""; gun_id = pos 0 }) body) [
        | none ↦ (s, plain_failure "invalid request")
        | some q ↦
            let (s', r) = equip_gun users jwt conf q.access_token q.gun_id now s in
            (s', equip_gun_response r)
      ]

  unfoldable pub http_get_equip_gun : (List ℕ → Option PlayerReq) → ℕ → List ℕ → S → EquippedResp
  unfolding unmarshal equipped_response
  http_get_equip_gun decode now body s =
      elim (unmarshal decode (record { access_token = ""; player_id = 0 }) body) [
        | none ↦ record { status = false; content = "invalid request"; gun_id = pos 0 }
        | some q ↦ equipped_response (get_equip_gun users jwt conf q.access_token q.player_id now s)
      ]
