-- ===== src/Matching/Samples.antt =====
-- One roomserver with one room of two places, and one call for which a library of one token signs.
use demo_server.Prelude.{ℕ_discrete, ◌≡◌, refl, some, [], ◌∷◌}
use demo_server.Prelude.Int.{pos, negsuc}
use demo_server.Prelude.Text.{string_discrete, trim_space, hex, decimal}
use demo_server.Prelude.Assoc.{lookup}
use demo_server.RoomToken.{generate}
use demo_server.Matching.State.{Matcher, AllocateResult, ok}
use demo_server.Matching.Config.{MatchServerConfig, new_matcher}
use demo_server.Matching.Rooms.{
  create_room, find_available_room, prune_empty_rooms, to_allocate_result,
}
use demo_server.Matching.Allocate.{Env, allocate_room, reservation_for, claims_for}
use demo_server.RoomToken.Samples.{Claims-discrete, one_token, sign_one}

abbrev pub config : MatchServerConfig
config = record {
  token_secret = "k";
  token_expire = negsuc 0;
  max_players_per_room = pos 2;
  room_servers =
      record {
        server_id = "rs1";
        server_addr = "10.0.0.1:9000";
        max_rooms = pos 1;
        max_players_per_room = pos 0;
      }
      ∷ [];
}

abbrev pub start : Matcher
start = record {
  token_secret = "k";
  token_expire = 60_000_000_000;
  servers =
      record { id = "rs1"; addr = "10.0.0.1:9000"; max_rooms = 1; max_players = 2; rooms = [] }
      ∷ [];
  reservations = [];
  sequence = 0;
  next_ref = 0;
}

pub started : new_matcher config ≡ ok start
unfolding new_matcher trim_space
started = refl

-- One call at second 5, for which the library of the one token signs.
abbrev pub at_five : Env
at_five = record {
  now = 5_000_000_000;
  random = some (0 ∷ 255 ∷ []);
  match_millis = 5;
  nonce_nanos = 5;
  token_now = 5_000_000_000;
}

abbrev pub five_answer : AllocateResult
five_answer = record {
  room_id = "rs1-00ff";
  server_id = "rs1";
  server_addr = "10.0.0.1:9000";
  match_id = "default-5-1";
  room_token = "t";
  expire_at = 65_000;
}

pub signed_call : (allocate_room one_token at_five start 7 "").1 ≡ ok five_answer
unfolding allocate_room generate lookup create_room find_available_room to_allocate_result
    trim_space prune_empty_rooms reservation_for hex decimal sign_one Claims-discrete claims_for
    string_discrete ℕ_discrete
signed_call = refl
