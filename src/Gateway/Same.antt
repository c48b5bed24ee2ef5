-- ===== src/Gateway/Same.antt =====
-- httpgateway/gateway.go against logicserver/service/service.go.
use demo_server.Prelude.{ℕ, false, Option, some, List, ◌≡◌, refl, arith, ap}
use demo_server.Prelude.Actions.{Result, ok, err}
use demo_server.RoomToken.{Jwt}
use demo_server.Matching.Allocate.{Env}
use demo_server.Account.Login.{AuthLogic, AuthError, LoginResult, verify_token}
use demo_server.Account.Register.{login, register}
use demo_server.Match.Lobby.{
  Delivery, Backend, MatchError, MatchRoomResult, match_room, match_response,
}
use demo_server.Gateway.{unmarshal}
use demo_server.Gateway.Auth.{
  AuthResp, LoginReq, TokenReq, MatchRoomReq, auth_failure, auth_success, http_auth_success,
  login_response, register_response, verify_response, http_login_response, http_register_response,
  http_verify_response, http_match_response, serve_login, serve_register, serve_verify_token,
  serve_match_room, http_login, http_register, http_verify_token, http_match_room, answering,
}

-- The same status and tokens, and the same words to what fails.
abbrev pub SameResp : AuthResp → AuthResp → Type 0
SameResp a b =
    (a.status ≡ b.status)
    × (a.access_token ≡ b.access_token)
    × (a.refresh_token ≡ b.refresh_token)
    × (b.status ≡ false → a.content ≡ b.content)

of_path : {a b : AuthResp} → a ≡ b → SameResp a b
of_path e = (
  ap (λ x. x.status) e,
  ap (λ x. x.access_token) e,
  ap (λ x. x.refresh_token) e,
  λ h. ap (λ x. x.content) e,
)

http_login_response-err : (e : AuthError) → http_login_response (err e) ≡ login_response (err e)
unfolding http_login_response login_response
http_login_response-err e = ground arith

login-SameResp :
    (r : Result AuthError LoginResult) → SameResp (http_login_response r) (login_response r)
unfolding http_login_response login_response http_auth_success auth_success auth_failure
login-SameResp (ok r) = (refl, refl, refl, λ h. ground (arith, h))
login-SameResp (err e) = of_path (http_login_response-err e)

http_register_response-err :
    (e : AuthError) → http_register_response (err e) ≡ register_response (err e)
unfolding http_register_response register_response
http_register_response-err e = ground arith

register-SameResp :
    (r : Result AuthError LoginResult) → SameResp (http_register_response r) (register_response r)
unfolding http_register_response register_response http_auth_success auth_success auth_failure
register-SameResp (ok r) = (refl, refl, refl, λ h. ground (arith, h))
register-SameResp (err e) = of_path (http_register_response-err e)

http_verify_response-err : (e : AuthError) → http_verify_response (err e) ≡ verify_response (err e)
unfolding http_verify_response verify_response
http_verify_response-err e = ground arith

verify-SameResp :
    (r : Result AuthError LoginResult) → SameResp (http_verify_response r) (verify_response r)
unfolding http_verify_response verify_response http_auth_success auth_success auth_failure
verify-SameResp (ok r) = (refl, refl, refl, λ h. ground (arith, h))
verify-SameResp (err e) = of_path (http_verify_response-err e)

http_match_response_lem :
    (r : Result MatchError MatchRoomResult) → http_match_response r ≡ match_response r
unfolding http_match_response match_response
http_match_response_lem r = ground arith

-- The same state afterwards, and the same answer but for the greeting of a success.
abbrev pub SameAnswer : {S : Type 0} → S × AuthResp → S × AuthResp → Type 0
SameAnswer a b = (a.0 ≡ b.0) × SameResp a.1 b.1

answering-SameAnswer :
    {S : Type 0} (f g : Result AuthError LoginResult → AuthResp)
    → ((r : Result AuthError LoginResult) → SameResp (f r) (g r))
    → (out : S × Result AuthError LoginResult) → SameAnswer (answering f out) (answering g out)
answering-SameAnswer f g same (s, r) = (refl, same r)

module _ {R U : Type 0} (l : AuthLogic R U) (now : ℕ) where
  login_door :
      (decode : List ℕ → Option LoginReq) (body : List ℕ) (q : LoginReq) (s : R × U)
      → unmarshal decode (record { email = ""; password = "" }) body ≡ some q
      → SameAnswer (http_login l decode now body s) (serve_login l q now s)
        × SameAnswer (http_register l decode now body s) (serve_register l q now s)
  unfolding http_login http_register serve_login serve_register
  login_door decode body q s e = rw e (
    answering-SameAnswer http_login_response login_response login-SameResp
        (login l q.email q.password now s),
    answering-SameAnswer http_register_response register_response register-SameResp
        (register l q.email q.password now s),
  )

  token_door :
      (decode : List ℕ → Option TokenReq) (body : List ℕ) (q : TokenReq) (s : R)
      → unmarshal decode (record { access_token = ""; refresh_token = "" }) body ≡ some q
      → SameAnswer (http_verify_token l decode now body s) (serve_verify_token l q now s)
  unfolding http_verify_token serve_verify_token
  token_door decode body q s e = rw e (
      answering-SameAnswer http_verify_response verify_response verify-SameResp
        (verify_token l q.access_token q.refresh_token now s))

  match_door :
      (jwt : Jwt) (env : Env) (d : Delivery) (decode : List ℕ → Option MatchRoomReq) (body : List ℕ)
      (q : MatchRoomReq) (b : Backend R)
      → unmarshal decode (record { access_token = ""; refresh_token = ""; mode = "" }) body ≡ some q
      → http_match_room l jwt env d decode now body b ≡ serve_match_room l jwt env d q now b
  unfolding http_match_room serve_match_room
  match_door jwt env d decode body q b e =
      let out = match_room l jwt q.access_token q.refresh_token q.mode now env d b in
      rw e (ap (λ r. (out.0, r)) (http_match_response_lem out.1))

  -- The two doors of the logicserver do the same. For a body that decodes to the request, Login,
  -- Register and VerifyToken leave the same stores over HTTP as by gRPC, answer the same status and
  -- tokens, and the same content wherever they refuse; MatchRoom answers the same throughout.
  pub doors-SameAnswer :
      (jwt : Jwt) (env : Env) (d : Delivery) (decode : List ℕ → Option LoginReq)
      (decode_token : List ℕ → Option TokenReq) (decode_match : List ℕ → Option MatchRoomReq)
      (body token_body match_body : List ℕ) (q : LoginReq) (t : TokenReq) (r : MatchRoomReq)
      (s : R × U) (b : Backend R)
      → unmarshal decode (record { email = ""; password = "" }) body ≡ some q
      → unmarshal decode_token (record { access_token = ""; refresh_token = "" }) token_body
        ≡ some t
      → unmarshal decode_match
          (record { access_token = ""; refresh_token = ""; mode = "" })
          match_body
        ≡ some r
      → SameAnswer (http_login l decode now body s) (serve_login l q now s)
        × SameAnswer (http_register l decode now body s) (serve_register l q now s)
        × SameAnswer
            (http_verify_token l decode_token now token_body s.0)
            (serve_verify_token l t now s.0)
        × (http_match_room l jwt env d decode_match now match_body b
            ≡ serve_match_room l jwt env d r now b)
  doors-SameAnswer jwt env d decode decode_token decode_match body token_body match_body q t r s b e
        f g =
      let both = login_door decode body q s e in
      (
        both.0,
        both.1,
        token_door decode_token token_body t s.0 f,
        match_door jwt env d decode_match match_body r b g,
      )
