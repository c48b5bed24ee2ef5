-- ===== src/Match/Lobby.antt =====
-- logicserver/logic/match.go: MatchRoom, and the answer that logicserver/service/service.go makes
-- of it. The logicserver reaches the matchserver by gRPC, so a call can fail before or after it is
-- carried out.
use demo_server.Prelude.{ℕ, String, Bool, not, ◌||◌, ◌==◌, Option, none, some}
use demo_server.Prelude.Text.{is_empty, trim_space}
use demo_server.Prelude.Actions.{Result, ok, err, Action, pure, guard, or_raise, ◌>>=◌, ◌>>◌}
use demo_server.RoomToken.{Jwt}
use demo_server.Matching.State.{Matcher}
use demo_server.Matching.Allocate.{Env}
use demo_server.Account.Login.{AuthLogic, AuthError, unauthorized, LoginResult, verify_token}
use demo_server.Match.Service.{AllocateResp, serve_allocate_room}

-- What becomes of one call of the matchserver.
pub data Delivery : Type 0 where
  answered not_sent answer_lost : Delivery

-- The token store behind the logicserver, and the matcher.
pub record Backend (R : Type 0) : Type 0 where
  pub sessions : R
  pub matcher : Matcher

pub data MatchError : Type 0 where
  auth_failed : AuthError → MatchError
  match_unavailable match_failed : MatchError
  match_refused : String → MatchError

-- MatchRoomResult
pub record MatchRoomResult : Type 0 where
  pub access_token : String
  pub refresh_token : String
  pub room_id : String
  pub server_id : String
  pub server_addr : String
  pub match_id : String
  pub room_token : String
  pub expire_at : ℕ

unfoldable pub on_sessions : {R A : Type 0} → Action R AuthError A → Action (Backend R) MatchError A
on_sessions m b =
    let (s, r) = m b.sessions in
    elim r [
      | ok a ↦ (record b { sessions = s }, ok a)
      | err e ↦ (record b { sessions = s }, err (auth_failed e))
    ]

-- The call of the client, with the error of gRPC where no answer comes.
abbrev pub delivered : Delivery → Matcher → Matcher × AllocateResp → Matcher × Option AllocateResp
delivered answered m (m', resp) = (m', some resp)
delivered not_sent m (m', resp) = (m, none)
delivered answer_lost m (m', resp) = (m', none)

unfoldable pub call_matchserver :
    {R : Type 0} → Jwt → Env → Delivery → ℕ → String → Action (Backend R) MatchError AllocateResp
unfolding serve_allocate_room
call_matchserver jwt env delivery player mode b =
    let (m, o) = delivered delivery b.matcher (serve_allocate_room jwt env player mode b.matcher) in
    or_raise o match_unavailable (record b { matcher = m })

unfoldable pub is_incomplete : AllocateResp → Bool
is_incomplete resp =
    is_empty resp.room_token
    || is_empty resp.server_addr
    || is_empty resp.room_id
    || is_empty resp.server_id

unfoldable pub result_of : LoginResult → AllocateResp → MatchRoomResult
result_of auth resp = record {
  access_token = auth.access_token;
  refresh_token = auth.refresh_token;
  room_id = resp.room_id;
  server_id = resp.server_id;
  server_addr = resp.server_addr;
  match_id = resp.match_id;
  room_token = resp.room_token;
  expire_at = resp.expire_at;
}

module _ {R U : Type 0} (l : AuthLogic R U) (jwt : Jwt) where
  -- MatchRoom, from the answer of VerifyToken on.
  unfoldable pub match_verified :
      Env → Delivery → String → LoginResult → Action (Backend R) MatchError MatchRoomResult
  unfolding call_matchserver is_incomplete result_of
  match_verified env delivery mode auth = do
    guard (not (auth.user_id == 0)) (auth_failed unauthorized)
    resp ← call_matchserver jwt env delivery auth.user_id mode
    guard resp.status (match_refused resp.content)
    guard (not (is_incomplete resp)) match_failed
    pure (result_of auth resp)

  unfoldable pub match_room :
      String → String → String → ℕ → Env → Delivery → Action (Backend R) MatchError MatchRoomResult
  unfolding on_sessions match_verified
  match_room access_token refresh_token mode now env delivery b =
      (do
        auth ← on_sessions (verify_token l (trim_space access_token) (trim_space refresh_token) now)
        match_verified env delivery (trim_space mode) auth)
        b

-- MatchRoomResp: its status, and its content where it failed.
pub data MatchResponse : Type 0 where
  matched : MatchRoomResult → MatchResponse
  not_authorized no_match_server : MatchResponse
  refused : MatchError → MatchResponse

unfoldable pub match_response : Result MatchError MatchRoomResult → MatchResponse
match_response (ok r) = matched r
match_response (err (auth_failed unauthorized)) = not_authorized
match_response (err match_unavailable) = no_match_server
match_response (err e) = refused e
