-- ===== src/Match/Tests.antt =====
-- The player of the sample login asks for a room and joins it.
use demo_server.Prelude.{[], ◌≡◌, refl, arith, ap, ◌∙◌}
use demo_server.Prelude.Text.{trim_space}
use demo_server.Prelude.Actions.{Result, ok, err}
use demo_server.RoomToken.Samples.{one_token, one_token-IsJwt}
use demo_server.Matching.Samples.{config, start, started, at_five, signed_call}
use demo_server.Matching.Histories.{run}
use demo_server.Account.Samples.{auth, after_login, logged_in, verified}
use demo_server.Account.Login.{AuthError, LoginResult}
use demo_server.Account.Memory.{Hashes}
use demo_server.Room.Samples.{whole_numbers}
use demo_server.Server.{handle_join_room}
use demo_server.Server.Samples.{settings, read_any, flat_world, armed, caller, opened}
use demo_server.Match.Service.{serve_allocate_room, allocate_response, allocate_success}
use demo_server.Match.Lobby.{
  answered, answer_lost, Backend, MatchError, auth_failed, MatchRoomResult, match_room,
  match_verified, on_sessions, call_matchserver, is_incomplete, result_of,
}
use demo_server.Match.Entry.{IsMatched, match_room-IsMatched}
use demo_server.Match.Join.{IsSeated, handle_join_room-IsSeated}

abbrev placed : MatchRoomResult
placed = record {
  access_token = "t";
  refresh_token = "t";
  room_id = "rs1-00ff";
  server_id = "rs1";
  server_addr = "10.0.0.1:9000";
  match_id = "default-5-1";
  room_token = "t";
  expire_at = 65_000;
}

abbrev lobby : Backend Hashes
lobby = record { sessions = after_login; matcher = run one_token start [] }

from_session :
    match_room auth one_token "t" "t" "" 6_000_000_000 at_five answered lobby
    ≡ match_verified auth one_token at_five answered "" logged_in lobby
unfolding match_room on_sessions trim_space
from_session =
    ap
      (λ (r : Hashes × Result AuthError LoginResult).
        (let (b, v) = (elim r.1 as (λ x. Backend Hashes × Result MatchError LoginResult) [
          | ok a ↦ (record lobby { sessions = r.0 }, ok a)
          | err e ↦ (record lobby { sessions = r.0 }, err (auth_failed e))
        ]) in
          elim v as (λ x. Backend Hashes × Result MatchError MatchRoomResult) [
            | ok a ↦ match_verified auth one_token at_five answered "" a b
            | err e ↦ (b, err e)
          ]))
      verified

from_matcher : (match_verified auth one_token at_five answered "" logged_in lobby).1 ≡ ok placed
unfolding match_verified call_matchserver serve_allocate_room allocate_response allocate_success
    is_incomplete result_of run
from_matcher = rw signed_call refl

gets_a_room :
    (match_room auth one_token "t" "t" "" 6_000_000_000 at_five answered lobby).1 ≡ ok placed
gets_a_room = ap (λ x. x.1) from_session ∙ from_matcher

match_room-IsMatched_example :
    IsMatched auth one_token "k" lobby
      (match_room auth one_token " t" "t" "" 6_000_000_000 at_five answer_lost lobby).0
      "t"
      "t"
      6_000_000_000
      (match_room auth one_token " t" "t" "" 6_000_000_000 at_five answer_lost lobby).1
unfolding trim_space
match_room-IsMatched_example =
    match_room-IsMatched auth one_token one_token-IsJwt config start [] at_five started tt
      (omega arith) after_login answer_lost " t" "t" "" 6_000_000_000

handle_join_room-IsSeated_example :
    IsSeated auth one_token after_login "t" "t" 6_000_000_000 placed settings caller
      (handle_join_room whole_numbers flat_world armed settings read_any one_token 7_000_000_000 []
        caller opened)
      (handle_join_room whole_numbers flat_world armed settings read_any one_token 7_000_000_000 []
        caller opened).error
unfolding trim_space
handle_join_room-IsSeated_example =
    handle_join_room-IsSeated auth one_token one_token-IsJwt config start [] at_five started tt
      (omega arith) after_login answered "t" "t" "" 6_000_000_000 placed whole_numbers flat_world
      armed settings read_any 7_000_000_000 [] caller opened gets_a_room refl refl
