-- ===== src/Matching/Config.antt =====
-- matchserver/logic/matcher.go: `normalizeConfig` and `NewMatcher`, and the two structs of
-- config/config.go that they read. An int or a duration of the file may be negative or 0; the
-- defaults make it a positive number.
use demo_server.Prelude.{
  ℕ, String, Bool, List, [], ◌∷◌, map, ◌||◌, if◌then◌else◌, length, not, ◌==◌,
}
use demo_server.Prelude.Int.{ℤ, positive_or}
use demo_server.Prelude.Text.{is_empty, trim_space}
use demo_server.RoomToken.{minute}
use demo_server.Matching.State.{
  ServerState, Matcher, Result, ok, err, no_available_server, room_token_secret_empty,
}

pub record NodeConfig : Type 0 where
  pub server_id : String
  pub server_addr : String
  pub max_rooms : ℤ
  pub max_players_per_room : ℤ

pub record MatchServerConfig : Type 0 where
  pub token_secret : String
  pub token_expire : ℤ
  pub max_players_per_room : ℤ
  pub room_servers : List NodeConfig

-- A node, and the configuration, after the defaults.
pub record Node : Type 0 where
  pub server_id : String
  pub server_addr : String
  pub max_rooms : ℕ
  pub max_players_per_room : ℕ

pub record Settings : Type 0 where
  pub token_secret : String
  pub token_expire : ℕ
  pub max_players_per_room : ℕ
  pub room_servers : List Node

unfoldable pub normalize_node : ℕ → NodeConfig → Node
normalize_node players n = record {
  server_id = n.server_id;
  server_addr = n.server_addr;
  max_rooms = positive_or 1000 n.max_rooms;
  max_players_per_room = positive_or players n.max_players_per_room;
}

unfoldable pub normalize_config : MatchServerConfig → Settings
unfolding normalize_node
normalize_config cfg =
    let players = positive_or 2 cfg.max_players_per_room in
    record {
      token_secret = cfg.token_secret;
      token_expire = positive_or minute cfg.token_expire;
      max_players_per_room = players;
      room_servers = map (normalize_node players) cfg.room_servers;
    }

unfoldable pub has_address : Node → Bool
has_address n = not (is_empty (trim_space n.server_id) || is_empty (trim_space n.server_addr))

unfoldable pub new_server : Node → ServerState
new_server n = record {
  id = n.server_id;
  addr = n.server_addr;
  max_rooms = n.max_rooms;
  max_players = n.max_players_per_room;
  rooms = [];
}

-- The loop over `cfg.RoomServers`: a node with a blank id or address is passed over.
unfoldable pub new_servers : List Node → List ServerState
unfolding has_address new_server
new_servers [] = []
new_servers (n ∷ ns) =
    let rest = new_servers ns in if has_address n then new_server n ∷ rest else rest

abbrev pub matcher_of : Settings → List ServerState → Matcher
matcher_of cfg servers = record {
  token_secret = cfg.token_secret;
  token_expire = cfg.token_expire;
  servers = servers;
  reservations = [];
  sequence = 0;
  next_ref = 0;
}

unfoldable pub new_matcher : MatchServerConfig → Result Matcher
unfolding normalize_config new_servers
new_matcher raw =
    let cfg = normalize_config raw in
    let servers = new_servers cfg.room_servers in
    if is_empty (trim_space cfg.token_secret)
    then err room_token_secret_empty
    else if length cfg.room_servers == 0
    then err no_available_server
    else if length servers == 0
    then err no_available_server
    else ok (matcher_of cfg servers)
