-- ===== src/Matching/Histories.antt =====
-- The matcher over every history of calls, from a configuration on.
use demo_server.Prelude.{
  ℕ, ◌≤◌, ◌<◌, ◌≡◌, refl, String, none, some, List, [], ◌∷◌, ◌==◌, if◌then◌else◌, map, All, All-map,
  ◌∙◌, arith, length,
}
use demo_server.Prelude.Int.{ℤ, pos, negsuc, positive_or}
use demo_server.Prelude.Assoc.{lookup}
use demo_server.RoomToken.{Jwt}
use demo_server.Matching.State.{Reservation, ReservationKey, Matcher, RoomState, ok}
use demo_server.Matching.Config.{
  NodeConfig, MatchServerConfig, Node, Settings, normalize_node, normalize_config, new_servers,
  matcher_of, new_matcher,
}
use demo_server.Matching.Allocate.{Env, allocate_room}
use demo_server.Matching.Refs.{occurrences, ServerTag, AllRooms, AllRooms-map, RoomsFit}
use demo_server.Matching.Invariant.{find, Inv, Fits, Mirrors, Names}
use demo_server.Matching.Reserve.{allocate_room-Inv}

positive_or_pos : (d : ℕ) (z : ℤ) → 0 < d → 0 < positive_or d z
positive_or_pos d (pos n) h = ground arith
positive_or_pos d (negsuc n) h = h

abbrev NodeFits : Node → Type 0
NodeFits n = (0 < n.max_rooms) × (0 < n.max_players_per_room)

normalize_nodes_fit :
    (players : ℕ) (ns : List NodeConfig)
    → 0 < players
    → All NodeFits (map (normalize_node players) ns)
unfolding normalize_node
normalize_nodes_fit players [] h = tt
normalize_nodes_fit players (n ∷ ns) h = (
  (
    positive_or_pos 1000 n.max_rooms (omega arith),
    positive_or_pos players n.max_players_per_room h,
  ),
  normalize_nodes_fit players ns h,
)

new_servers_fit : (ns : List Node) → All NodeFits ns → All RoomsFit (new_servers ns)
unfolding new_servers
new_servers_fit [] h = tt
new_servers_fit (n ∷ ns) h = ground (arith, new_servers_fit ns h.1)

-- A new server has no room.
new_servers_rooms :
    (P : ServerTag → RoomState → Type 0) (ns : List Node) → AllRooms P (new_servers ns)
unfolding new_servers
new_servers_rooms P [] = tt
new_servers_rooms P (n ∷ ns) = ground (arith, new_servers_rooms P ns)

new_servers_refs : (x : ℕ) (ns : List Node) → occurrences x (new_servers ns) ≡ 0
unfolding new_servers occurrences
new_servers_refs x [] = refl
new_servers_refs x (n ∷ ns) = ground (arith, new_servers_refs x ns)

matcher_of-Inv :
    (cfg : Settings)
    → All NodeFits cfg.room_servers
    → Inv (matcher_of cfg (new_servers cfg.room_servers))
unfolding lookup
matcher_of-Inv cfg h = record {
  is_map = tt;
  rooms_fit = new_servers_fit cfg.room_servers h;
  players_fit = new_servers_rooms Fits cfg.room_servers;
  mirrors = new_servers_rooms (λ t. Mirrors []) cfg.room_servers;
  names = new_servers_rooms Names cfg.room_servers;
  unique = λ x. omega (arith, new_servers_refs x cfg.room_servers);
  fresh = λ x _. new_servers_refs x cfg.room_servers;
  placed = λ k v e. cc;
}

-- A matcher that NewMatcher returns satisfies the invariant, whatever the configuration.
pub new_matcher-Inv : (cfg : MatchServerConfig) (m : Matcher) → new_matcher cfg ≡ ok m → Inv m
unfolding new_matcher
new_matcher-Inv cfg m e = ground (
  arith,
  matcher_of-Inv (normalize_config cfg) (
      normalize_nodes_fit (positive_or 2 cfg.max_players_per_room) cfg.room_servers
        (positive_or_pos 2 cfg.max_players_per_room (omega arith))),
)

-- One call of AllocateRoom, with what it reads from outside.
pub record Call : Type 0 where
  pub env : Env
  pub player : ℕ
  pub mode : String

module _ (jwt : Jwt) where
  unfoldable pub run : Matcher → List Call → Matcher
  run m [] = m
  run m (c ∷ cs) = run (allocate_room jwt c.env m c.player c.mode).0 cs

  run-Inv : (m : Matcher) (cs : List Call) → Inv m → Inv (run m cs)
  unfolding run
  run-Inv m [] v = v
  run-Inv m (c ∷ cs) v =
      run-Inv (allocate_room jwt c.env m c.player c.mode).0 cs
        (allocate_room-Inv jwt c.env m c.player c.mode v)

  pub reachable-Inv :
      (cfg : MatchServerConfig) (m : Matcher) (cs : List Call)
      → new_matcher cfg ≡ ok m
      → Inv (run m cs)
  reachable-Inv cfg m cs e = run-Inv m cs (new_matcher-Inv cfg m e)

  -- After any history of calls a reservation is held by exactly one room of all servers, the one
  -- that it points to: every other room's map lacks its key.
  pub seated_once :
      (cfg : MatchServerConfig) (m : Matcher) (cs : List Call) (k : ReservationKey)
      (w : Reservation)
      → new_matcher cfg ≡ ok m
      → find k (run m cs).reservations ≡ some w
      → (occurrences w.room (run m cs).servers ≡ 1)
        × AllRooms
            (λ t r. find k r.reservations ≡ (if w.room == r.ref then some w else none))
            (run m cs).servers
  seated_once cfg m cs k w e held =
      let v : Inv (run m cs) = reachable-Inv cfg m cs e in
      (
        v.placed k w held,
        AllRooms-map (λ t. Mirrors (run m cs).reservations)
            (λ t r. find k r.reservations ≡ (if w.room == r.ref then some w else none))
            (run m cs).servers (λ t r h. h k ∙ rw held) v.mirrors,
      )

  -- After any history every server has at most its number of rooms, and every room at most its
  -- number of reservations, each with the room's mode and the names of its room and server.
  pub within_capacity :
      (cfg : MatchServerConfig) (m : Matcher) (cs : List Call)
      → new_matcher cfg ≡ ok m
      → All (λ s. length s.rooms ≤ s.max_rooms) (run m cs).servers
        × AllRooms (λ t r. length r.reservations ≤ t.max_players) (run m cs).servers
        × AllRooms Names (run m cs).servers
  within_capacity cfg m cs e =
      let v : Inv (run m cs) = reachable-Inv cfg m cs e in
      (
        All-map RoomsFit (λ s. length s.rooms ≤ s.max_rooms) (run m cs).servers (λ s h. h.2)
            v.rooms_fit,
        v.players_fit,
        v.names,
      )
