-- ===== src/Gateway/Profile.antt =====
-- httpgateway/gateway.go and logicserver/service/service.go: the profile and the wardrobe behind
-- both doors, and the shop and the equipment by gRPC.
use demo_server.Prelude.{ℕ, ◌+◌, ◌-◌, ◌^◌, String, Bool, true, false, Option, none, some, List, []}
use demo_server.Prelude.Int.{ℤ, pos, negsuc}
use demo_server.Prelude.Text.{decimal}
use demo_server.Prelude.Actions.{Result, ok, err}
use Prim.Native.String.{◌++◌ as str_append}
use demo_server.Account.Signing.{JwtGo, JwtConfig}
use demo_server.Player.State.{Gun, UserInfo}
use demo_server.Player.Mongo.{Collection}
use demo_server.Player.Users.{UserStore}
use demo_server.Player.Mall.{MallDocument, MallError, get_mall_all_details, buy_gun}
use demo_server.Player.Info.{
  InfoError, modify_player_nickname, modify_player_profile_photo, equip_gun, get_player_info,
  get_ware_details, get_equip_gun,
}
use demo_server.Gateway.{unmarshal}
use demo_server.Gateway.Shop.{GunReq, PlayerReq, PlainResp, plain_failure, equip_gun_response}

-- The content of an answer: words of the handler, or the text of an error.
pub data Told : Type 0 where
  words : String → Told
  text_of : InfoError → Told

pub record ProfileResp : Type 0 where
  pub status : Bool
  pub content : Told

pub record PlayerInfoResp : Type 0 where
  pub status : Bool
  pub content : Told
  pub player_id : ℕ
  pub player_exp : ℕ
  pub player_level : String
  pub player_nickname : String
  pub player_coins : ℕ
  pub player_profile_photo : ℤ

pub record WareResp : Type 0 where
  pub status : Bool
  pub content : Told
  pub gun_list : List Gun

pub record NicknameReq : Type 0 where
  pub access_token : String
  pub nickname : String

pub record PhotoReq : Type 0 where
  pub access_token : String
  pub photo : ℤ

-- uint64(n) of an int64
unfoldable pub to_uint64 : ℤ → ℕ
to_uint64 (pos n) = n
to_uint64 (negsuc n) = 2 ^ 64 - (n + 1)

-- strconv.FormatInt(n, 10)
unfoldable pub format_int : ℤ → String
format_int (pos n) = decimal n
format_int (negsuc n) = str_append "-" (decimal (n + 1))

abbrev pub no_player_info : Told → PlayerInfoResp
no_player_info content = record {
  status = false;
  content = content;
  player_id = 0;
  player_exp = 0;
  player_level = "";
  player_nickname = "";
  player_coins = 0;
  player_profile_photo = pos 0;
}

unfoldable pub player_info_response : Result InfoError UserInfo → PlayerInfoResp
unfolding to_uint64 format_int
player_info_response (err e) = no_player_info (text_of e)
player_info_response (ok info) = record {
  status = true;
  content = words "player info retrieved successfully";
  player_id = info.user_id;
  player_exp = to_uint64 info.exp;
  player_level = format_int info.level;
  player_nickname = info.nickname;
  player_coins = to_uint64 info.coins;
  player_profile_photo = info.profile_photo_id;
}

abbrev pub refused_profile : Told → ProfileResp
refused_profile content = record { status = false; content = content }

-- The greeting of a success, or the text of the error.
unfoldable pub profile_response : String → Result InfoError Unit → ProfileResp
profile_response greeting (ok u) = record { status = true; content = words greeting }
profile_response greeting (err e) = refused_profile (text_of e)

unfoldable pub ware_response : Result InfoError (List Gun) → WareResp
ware_response (ok guns) = record { status = true; content = words "ok"; gun_list = guns }
ware_response (err e) = record { status = false; content = text_of e; gun_list = [] }

-- What a call by gRPC returns: a response, and the error of the call where there is one.
pub record Returned (B E : Type 0) : Type 0 where
  pub response : B
  pub error : Option E

unfoldable pub returned_ware : Result InfoError (List Gun) → Returned (Bool × List Gun) InfoError
returned_ware (ok guns) = record { response = (true, guns); error = none }
returned_ware (err e) = record { response = (false, []); error = some e }

unfoldable pub returned_mall : Result MallError (List Gun) → Returned (Bool × List Gun) MallError
returned_mall (ok guns) = record { response = (true, guns); error = none }
returned_mall (err e) = record { response = (false, []); error = some e }

unfoldable pub returned_purchase : Result MallError Unit → Returned PlainResp MallError
returned_purchase (ok u) = record {
  response = record { status = true; content = "ok" };
  error = none;
}
returned_purchase (err e) = record { response = plain_failure "Buy Gun Fail"; error = some e }

module _ {S : Type 0} (users : UserStore S) (jwt : JwtGo) (conf : Option JwtConfig) where
  unfoldable pub http_get_player_info :
      (List ℕ → Option PlayerReq) → ℕ → List ℕ → S → PlayerInfoResp
  unfolding unmarshal player_info_response
  http_get_player_info decode now body s =
      elim (unmarshal decode (record { access_token = ""; player_id = 0 }) body) [
        | none ↦ no_player_info (words "invalid request")
        | some q ↦
            player_info_response (get_player_info users jwt conf q.access_token q.player_id now s)
      ]

  unfoldable pub renamed_by : NicknameReq → ℕ → S → S × ProfileResp
  unfolding profile_response
  renamed_by q now s =
      let (s', r) = modify_player_nickname users jwt conf q.access_token q.nickname now s in
      (s', profile_response "nickname modified successfully" r)

  unfoldable pub http_modify_player_nickname :
      (List ℕ → Option NicknameReq) → ℕ → List ℕ → S → S × ProfileResp
  unfolding unmarshal renamed_by
  http_modify_player_nickname decode now body s =
      elim (unmarshal decode (record { access_token = ""; nickname = "" }) body) [
        | none ↦ (s, refused_profile (words "invalid request"))
        | some q ↦ renamed_by q now s
      ]

  unfoldable pub pictured_by : PhotoReq → ℕ → S → S × ProfileResp
  unfolding profile_response
  pictured_by q now s =
      let (s', r) = modify_player_profile_photo users jwt conf q.access_token q.photo now s in
      (s', profile_response "profile photo modified successfully" r)

  unfoldable pub http_modify_player_profile_photo :
      (List ℕ → Option PhotoReq) → ℕ → List ℕ → S → S × ProfileResp
  unfolding unmarshal pictured_by
  http_modify_player_profile_photo decode now body s =
      elim (unmarshal decode (record { access_token = ""; photo = pos 0 }) body) [
        | none ↦ (s, refused_profile (words "invalid request"))
        | some q ↦ pictured_by q now s
      ]

  unfoldable pub http_get_player_ware_details :
      (List ℕ → Option PlayerReq) → ℕ → List ℕ → S → WareResp
  unfolding unmarshal ware_response
  http_get_player_ware_details decode now body s =
      elim (unmarshal decode (record { access_token = ""; player_id = 0 }) body) [
        | none ↦ record { status = false; content = words "invalid request"; gun_list = [] }
        | some q ↦ ware_response (get_ware_details users jwt conf q.access_token q.player_id now s)
      ]

  unfoldable pub serve_get_player_info : PlayerReq → ℕ → S → PlayerInfoResp
  unfolding player_info_response
  serve_get_player_info q now s =
      player_info_response (get_player_info users jwt conf q.access_token q.player_id now s)

  unfoldable pub serve_get_player_ware_details :
      PlayerReq → ℕ → S → Returned (Bool × List Gun) InfoError
  unfolding returned_ware
  serve_get_player_ware_details q now s =
      returned_ware (get_ware_details users jwt conf q.access_token q.player_id now s)

  unfoldable pub serve_equip_gun : GunReq → ℕ → S → S × PlainResp
  unfolding equip_gun_response
  serve_equip_gun q now s =
      let (s', r) = equip_gun users jwt conf q.access_token q.gun_id now s in
      (s', equip_gun_response r)

  module _ {M : Type 0} (mall : Collection M MallDocument) where
    unfoldable pub serve_get_mall_details : M → Returned (Bool × List Gun) MallError
    unfolding returned_mall
    serve_get_mall_details m = returned_mall (get_mall_all_details mall m)

    unfoldable pub serve_buy_gun : GunReq → M → ℕ → S → S × Returned PlainResp MallError
    unfolding returned_purchase
    serve_buy_gun q m now s =
        let (s', r) = buy_gun mall users jwt conf q.access_token q.gun_id m now s in
        (s', returned_purchase r)

-- getEquipGun by gRPC, which tells the text of the error.
pub record ToldGunResp : Type 0 where
  pub status : Bool
  pub content : Told
  pub gun_id : ℤ

unfoldable pub told_gun : Result InfoError ℤ → ToldGunResp
told_gun (ok id) = record { status = true; content = words "ok"; gun_id = id }
told_gun (err e) = record { status = false; content = text_of e; gun_id = pos 0 }

module _ {S : Type 0} (users : UserStore S) (jwt : JwtGo) (conf : Option JwtConfig) where
  unfoldable pub serve_get_equip_gun : PlayerReq → ℕ → S → ToldGunResp
  unfolding told_gun
  serve_get_equip_gun q now s =
      told_gun (get_equip_gun users jwt conf q.access_token q.player_id now s)

  unfoldable pub serve_modify_player_nickname : NicknameReq → ℕ → S → S × ProfileResp
  unfolding profile_response
  serve_modify_player_nickname q now s =
      let (s', r) = modify_player_nickname users jwt conf q.access_token q.nickname now s in
      (s', profile_response "nickname modified successfully" r)

  unfoldable pub serve_modify_player_profile_photo : PhotoReq → ℕ → S → S × ProfileResp
  unfolding profile_response
  serve_modify_player_profile_photo q now s =
      let (s', r) = modify_player_profile_photo users jwt conf q.access_token q.photo now s in
      (s', profile_response "profile photo modified successfully" r)
