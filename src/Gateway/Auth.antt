-- ===== src/Gateway/Auth.antt =====
-- logicserver/service/service.go and httpgateway/gateway.go: Login, Register, VerifyToken and
-- MatchRoom behind both doors.
use demo_server.Prelude.{ℕ, String, Bool, true, false, Option, none, some, List}
use demo_server.Prelude.Actions.{Result, ok, err}
use demo_server.RoomToken.{Jwt}
use demo_server.Matching.Allocate.{Env}
use demo_server.Account.Login.{
  AuthLogic, AuthError, invalid_login_params, invalid_credential, account_already_exist,
  unauthorized, LoginResult, verify_token,
}
use demo_server.Account.Register.{login, register}
use demo_server.Match.Lobby.{
  Delivery, Backend, MatchError, auth_failed, match_unavailable, MatchRoomResult, MatchResponse,
  matched, not_authorized, no_match_server, refused, match_room, match_response,
}
use demo_server.Gateway.{unmarshal}

-- AuthResp
pub record AuthResp : Type 0 where
  pub status : Bool
  pub content : String
  pub access_token : String
  pub refresh_token : String

pub record LoginReq : Type 0 where
  pub email : String
  pub password : String

pub record TokenReq : Type 0 where
  pub access_token : String
  pub refresh_token : String

pub record MatchRoomReq : Type 0 where
  pub access_token : String
  pub refresh_token : String
  pub mode : String

unfoldable pub auth_failure : String → AuthResp
auth_failure content = record {
  status = false;
  content = content;
  access_token = "";
  refresh_token = "";
}

unfoldable pub auth_success : String → LoginResult → AuthResp
auth_success content r = record {
  status = true;
  content = content;
  access_token = r.access_token;
  refresh_token = r.refresh_token;
}

-- The answers by gRPC.
unfoldable pub login_response : Result AuthError LoginResult → AuthResp
login_response (ok r) = auth_success "login success" r
login_response (err invalid_login_params) = auth_failure "invalid login params"
login_response (err invalid_credential) = auth_failure "invalid email or password"
login_response (err e) = auth_failure "login failed"

unfoldable pub register_response : Result AuthError LoginResult → AuthResp
register_response (ok r) = auth_success "register success" r
register_response (err invalid_login_params) = auth_failure "invalid login params"
register_response (err account_already_exist) = auth_failure "account already exists"
register_response (err e) = auth_failure "register failed"

unfoldable pub verify_response : Result AuthError LoginResult → AuthResp
verify_response (ok r) = auth_success "token verified" r
verify_response (err unauthorized) = auth_failure "unauthorized"
verify_response (err e) = auth_failure "verify token failed"

-- The answers by HTTP, which greet every success alike.
unfoldable pub http_auth_success : LoginResult → AuthResp
http_auth_success r = record {
  status = true;
  content = "login success";
  access_token = r.access_token;
  refresh_token = r.refresh_token;
}

unfoldable pub http_login_response : Result AuthError LoginResult → AuthResp
http_login_response (ok r) = http_auth_success r
http_login_response (err invalid_login_params) = auth_failure "invalid login params"
http_login_response (err invalid_credential) = auth_failure "invalid email or password"
http_login_response (err e) = auth_failure "login failed"

unfoldable pub http_register_response : Result AuthError LoginResult → AuthResp
http_register_response (ok r) = http_auth_success r
http_register_response (err invalid_login_params) = auth_failure "invalid login params"
http_register_response (err account_already_exist) = auth_failure "account already exists"
http_register_response (err e) = auth_failure "register failed"

unfoldable pub http_verify_response : Result AuthError LoginResult → AuthResp
http_verify_response (ok r) = http_auth_success r
http_verify_response (err unauthorized) = auth_failure "unauthorized"
http_verify_response (err e) = auth_failure "verify token failed"

unfoldable pub http_match_response : Result MatchError MatchRoomResult → MatchResponse
http_match_response (ok r) = matched r
http_match_response (err (auth_failed unauthorized)) = not_authorized
http_match_response (err match_unavailable) = no_match_server
http_match_response (err e) = refused e

abbrev pub answering : {S E A B : Type 0} → (Result E A → B) → S × Result E A → S × B
answering f (s, r) = (s, f r)

-- A handler of the gateway: the answer to a body that is no request, or the call.
abbrev pub on_request : {S Q B : Type 0} → B → (Q → S → S × B) → Option Q → S → S × B
on_request bad call none s = (s, bad)
on_request bad call (some q) s = call q s

module _ {R U : Type 0} (l : AuthLogic R U) where
  unfoldable pub serve_login : LoginReq → ℕ → R × U → (R × U) × AuthResp
  unfolding login_response
  serve_login q now s = answering login_response (login l q.email q.password now s)

  unfoldable pub serve_register : LoginReq → ℕ → R × U → (R × U) × AuthResp
  unfolding register_response
  serve_register q now s = answering register_response (register l q.email q.password now s)

  unfoldable pub serve_verify_token : TokenReq → ℕ → R → R × AuthResp
  unfolding verify_response
  serve_verify_token q now s =
      answering verify_response (verify_token l q.access_token q.refresh_token now s)

  unfoldable pub http_login : (List ℕ → Option LoginReq) → ℕ → List ℕ → R × U → (R × U) × AuthResp
  unfolding http_login_response unmarshal
  http_login decode now body =
      on_request (auth_failure "invalid login params")
        (λ q s. answering http_login_response (login l q.email q.password now s))
        (unmarshal decode (record { email = ""; password = "" }) body)

  unfoldable pub http_register :
      (List ℕ → Option LoginReq) → ℕ → List ℕ → R × U → (R × U) × AuthResp
  unfolding http_register_response unmarshal
  http_register decode now body =
      on_request (auth_failure "invalid login params")
        (λ q s. answering http_register_response (register l q.email q.password now s))
        (unmarshal decode (record { email = ""; password = "" }) body)

  unfoldable pub http_verify_token : (List ℕ → Option TokenReq) → ℕ → List ℕ → R → R × AuthResp
  unfolding http_verify_response unmarshal
  http_verify_token decode now body =
      on_request (auth_failure "unauthorized")
        (λ q s.
          answering http_verify_response (verify_token l q.access_token q.refresh_token now s))
        (unmarshal decode (record { access_token = ""; refresh_token = "" }) body)

  module _ (jwt : Jwt) (env : Env) (d : Delivery) where
    unfoldable pub serve_match_room : MatchRoomReq → ℕ → Backend R → Backend R × MatchResponse
    unfolding match_response
    serve_match_room q now b =
        answering match_response
          (match_room l jwt q.access_token q.refresh_token q.mode now env d b)

    unfoldable pub http_match_room :
        (List ℕ → Option MatchRoomReq) → ℕ → List ℕ → Backend R → Backend R × MatchResponse
    unfolding http_match_response unmarshal
    http_match_room decode now body =
        on_request not_authorized
          (λ q b.
            answering http_match_response
              (match_room l jwt q.access_token q.refresh_token q.mode now env d b))
          (unmarshal decode (record { access_token = ""; refresh_token = ""; mode = "" }) body)
