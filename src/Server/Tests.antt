-- ===== src/Server/Tests.antt =====
-- A session that joins with a token of this server, and the theorem at work on it.
use demo_server.Prelude.{true, none, some, [], ◌≡◌, refl, ℕ_discrete}
use demo_server.Prelude.Text.{string_discrete}
use demo_server.Prelude.Assoc.{lookup, insert}
use demo_server.RoomToken.{Claims, Jwt, token, parse}
use demo_server.Manager.{join_room}
use demo_server.Room.Join.{join}
use demo_server.Room.Samples.{whole_numbers}
use demo_server.Server.{handle_join_room}
use demo_server.Server.Access.{IsAccessOf, read_token, handle_join_room-IsAccess}
use demo_server.Server.Samples.{settings, read_any, flat_world, armed, caller, opened}

abbrev seat : Claims
seat = record {
  player_id = 7;
  room_id = "r";
  server_id = "rs1";
  match_id = "m";
  nonce = "n";
  expires_at = 65;
  issuer = "matchserver";
}

-- A library that reads every token as this seat.
abbrev one_seat : Jwt
one_seat = record {
  signed_string = λ k c. some "t";
  parse_with_claims = λ f t now. token seat true;
}

gets_in :
    (handle_join_room whole_numbers flat_world armed settings read_any one_seat 0 [] caller
      opened).error
    ≡ none
unfolding handle_join_room caller opened parse join_room string_discrete lookup insert ℕ_discrete
    join
gets_in = refl

handle_join_room-IsAccess_example :
    IsAccessOf whole_numbers flat_world armed settings caller opened
      (read_token whole_numbers flat_world armed settings one_seat 0 (read_any []))
      (handle_join_room whole_numbers flat_world armed settings read_any one_seat 0 [] caller
        opened)
handle_join_room-IsAccess_example =
    handle_join_room-IsAccess whole_numbers flat_world armed settings read_any one_seat 0 [] caller
      opened
