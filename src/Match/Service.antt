-- ===== src/Match/Service.antt =====
-- matchserver/service/service.go: the gRPC call AllocateRoom over the allocator.
use demo_server.Prelude.{ℕ, String, Bool, true, false}
use demo_server.RoomToken.{Jwt}
use demo_server.Matching.State.{
  Matcher, AllocateResult, Result, ok, err, invalid_player, no_available_server, room_server_full,
}
use demo_server.Matching.Allocate.{Env, allocate_room}

-- AllocateRoomResp
pub record AllocateResp : Type 0 where
  pub status : Bool
  pub content : String
  pub room_id : String
  pub server_id : String
  pub server_addr : String
  pub match_id : String
  pub room_token : String
  pub expire_at : ℕ

unfoldable pub allocate_failure : String → AllocateResp
allocate_failure content = record {
  status = false;
  content = content;
  room_id = "";
  server_id = "";
  server_addr = "";
  match_id = "";
  room_token = "";
  expire_at = 0;
}

unfoldable pub allocate_success : AllocateResult → AllocateResp
allocate_success r = record {
  status = true;
  content = "allocate room success";
  room_id = r.room_id;
  server_id = r.server_id;
  server_addr = r.server_addr;
  match_id = r.match_id;
  room_token = r.room_token;
  expire_at = r.expire_at;
}

-- Three errors are told with their text, the others are hidden.
unfoldable pub allocate_response : Result AllocateResult → AllocateResp
unfolding allocate_failure allocate_success
allocate_response (ok r) = allocate_success r
allocate_response (err invalid_player) = allocate_failure "invalid player"
allocate_response (err no_available_server) = allocate_failure "no available roomserver"
allocate_response (err room_server_full) = allocate_failure "roomserver full"
allocate_response (err e) = allocate_failure "allocate room failed"

module _ (jwt : Jwt) (env : Env) where
  unfoldable pub serve_allocate_room : ℕ → String → Matcher → Matcher × AllocateResp
  unfolding allocate_response
  serve_allocate_room player mode m =
      let (m', r) = allocate_room jwt env m player mode in (m', allocate_response r)
