-- ===== src/Room/Join.antt =====
-- roomserver/logic/room.go: the queue, joining and leaving, and the start of the match.
use demo_server.Prelude.{
  ℕ, ◌+◌, ◌-◌, ◌/◌, String, Bool, true, false, Option, none, some, List, [], ◌∷◌, ◌++◌, ◌||◌, not,
  ltb, leb, if◌then◌else◌, length, ite, ℕ_discrete,
}
use demo_server.Prelude.Text.{string_discrete, is_empty}
use demo_server.Prelude.Assoc.{lookup, insert, delete}
use demo_server.Float.{Float}
use demo_server.Room.State.{
  Player, SyncState, AuthoritativeInput, SpawnPoint, Physics, PhysicsError, JoinPlace, JoinAck,
  Notice, join_ack, game_start, Event, event_join, event_leave, event_input, PlayerInput, Room,
}
use demo_server.Room.Create.{second}
use demo_server.Prelude.Int.{pos}

module _ {F : Type 0} (fl : Float F) where
  abbrev pub float_zero : F
  float_zero = fl.ratio (pos 0) 1

  -- authoritativeInput{}
  unfoldable pub no_input : AuthoritativeInput F
  no_input = record {
    client_tick = pos 0;
    move_x = float_zero;
    move_z = float_zero;
    yaw = float_zero;
    pitch = float_zero;
    fire = false;
    jump = false;
    squat = false;
  }

  unfoldable pub new_player_sync_state : SyncState F
  unfolding no_input
  new_player_sync_state = record {
    inputs = [];
    last_input = no_input;
    has_last_input = false;
    last_input_tick = 0;
    last_applied_tick = 0;
    last_queued_input_tick = 0;
  }

  -- What handleJoinEvent and the respawn set of a player at a spawn point.
  unfoldable pub place_at : SpawnPoint F → ℕ → Player F → Player F
  place_at s invincible p = record p {
    x = s.position.x;
    y = s.position.y;
    z = s.position.z;
    yaw = s.yaw;
    pitch = float_zero;
    hp = 100;
    alive = true;
    invincible_until_tick = invincible;
    vertical_velocity = float_zero;
    grounded = true;
    crouched = false;
  }

module _ {F : Type 0} where
  abbrev pub place_of : Option (Player F) → Option (JoinPlace F)
  place_of none = none
  place_of (some p) = some (record {
    spawn_id = p.spawn_id;
    x = p.x;
    y = p.y;
    z = p.z;
    yaw = p.yaw;
    pitch = p.pitch;
    gun_id = p.gun_id;
  })

  -- The set `used` of nextSpawnPoint, as a test.
  unfoldable pub is_spawn_used : String → List (ℕ × Player F) → Bool
  is_spawn_used id [] = false
  is_spawn_used id ((_, p) ∷ ps) =
      let rest = is_spawn_used id ps in
      ite (string_discrete p.spawn_id id) (not (is_empty p.spawn_id) || rest) rest

  unfoldable pub first_free : List (ℕ × Player F) → List (SpawnPoint F) → Option (SpawnPoint F)
  unfolding is_spawn_used
  first_free ps [] = none
  first_free ps (s ∷ ss) =
      let rest = first_free ps ss in
      if is_empty s.id then rest else if is_spawn_used s.id ps then rest else some s

module _ {F W : Type 0} where
  -- The queue holds 256 events; a full one takes no more.
  unfoldable pub push_event : Event F → Room F W → Room F W × Bool
  push_event e r =
      if ltb (length r.events) 256
      then (record r { events = r.events ++ e ∷ [] }, true)
      else (r, false)

  -- Join: a place is reserved before the event is queued, and given back if it is not.
  unfoldable pub join : Player F → Room F W → Room F W × Bool
  unfolding push_event
  join p r =
      if r.join_closed
      then (r, false)
      else if ltb r.max_players (r.join_slots + 1)
      then (r, false)
      else let (r', pushed) =
          push_event (event_join p true) (record r { join_slots = r.join_slots + 1 }) in
        if pushed then (r', true) else (record r' { join_slots = r'.join_slots - 1 }, false)

  unfoldable pub leave : ℕ → Room F W → Room F W × Bool
  unfolding push_event
  leave id r = push_event (event_leave id) r

  unfoldable pub push_input : ℕ → Option (PlayerInput F) → Room F W → Room F W × Bool
  unfolding push_event
  push_input id i r = push_event (event_input id i) r

  unfoldable pub release_join_slot : Room F W → Room F W
  release_join_slot r = if leb r.join_slots 0 then r else record r { join_slots = r.join_slots - 1 }

  unfoldable pub reconcile_join_slots : Room F W → Room F W
  reconcile_join_slots r = record r { join_slots = length r.players }

  unfoldable pub send : String → Notice F → Room F W → Room F W
  send session n r = record r { outbox = (session, n) ∷ r.outbox }

  unfoldable pub send_all : List (ℕ × Player F) → Notice F → Room F W → Room F W
  unfolding send
  send_all [] n r = r
  send_all ((_, p) ∷ ps) n r = send_all ps n (send p.session n r)

  unfoldable pub game_duration_seconds : Room F W → ℕ
  game_duration_seconds r =
      if leb (r.game_duration / second) 0 then 180 else r.game_duration / second

  unfoldable pub mark_game_started : Room F W → Room F W × Bool
  mark_game_started r = if r.game_started || r.game_ended then (r, false) else (
    record r {
      game_started = true;
      join_closed = true;
      join_slots = r.max_players;
      game_start_tick = r.tick;
      game_end_tick = r.tick + r.game_duration_ticks;
    },
    true,
  )

  unfoldable pub build_join_ack : Bool → Option (Player F) → String → Room F W → JoinAck F
  unfolding game_duration_seconds
  build_join_ack status p content r = record {
    status = status;
    room_id = r.id;
    content = content;
    tick = r.current_tick;
    tick_rate = r.tick_rate;
    snapshot_rate = r.snapshot_rate;
    map_id = r.map_id;
    physics_hash = r.physics_hash;
    game_duration_seconds = game_duration_seconds r;
    game_started = r.game_started;
    game_start_tick = r.game_start_tick;
    game_end_tick = r.game_end_tick;
    place = place_of p;
  }

  unfoldable pub broadcast_game_start : Room F W → Room F W
  unfolding send_all game_duration_seconds
  broadcast_game_start r =
      send_all r.players
        (game_start r.id r.tick r.game_start_tick r.game_end_tick (game_duration_seconds r)) r

  -- A refused player gets an acknowledgement with the reason.
  unfoldable pub reject : Player F → String → Room F W → Room F W × Bool
  unfolding send build_join_ack
  reject p content r = (send p.session (join_ack (build_join_ack false none content r)) r, false)

  unfoldable pub joined_player : Float F → Room F W → SpawnPoint F → Player F → Player F
  unfolding place_at
  joined_player fl r s p = record (place_at fl s 0 p) {
    room_id = r.id;
    kill_count = 0;
    death_count = 0;
    spawn_id = s.id;
  }

  abbrev pub broadcast_if : Bool → Room F W → Room F W
  broadcast_if started r = if started then broadcast_game_start r else r

  abbrev pub start_if_full : Room F W → Room F W × Bool
  start_if_full r = if leb r.max_players (length r.players) then mark_game_started r else (r, false)

  -- The rest of handleJoinEvent after the physics world has taken the player in.
  unfoldable pub admit : Float F → Player F → Room F W → Room F W × Bool
  unfolding new_player_sync_state mark_game_started send build_join_ack broadcast_game_start
  admit fl p r =
      let (r', started) = start_if_full (record r {
        players = insert ℕ_discrete p.id p r.players;
        sync_states = insert ℕ_discrete p.id (new_player_sync_state fl) r.sync_states;
      }) in
      (
        broadcast_if started (send p.session (join_ack (build_join_ack true (some p) "ok" r')) r'),
        true,
      )

  abbrev pub after_add : Float F → Player F → Room F W → W × Option PhysicsError → Room F W × Bool
  after_add fl p r (w, none) = admit fl p (record r { physics = w })
  after_add fl p r (w, some e) = reject p "physics add player failed" (record r { physics = w })

  abbrev pub at_spawn :
      Float F → Physics F W → Player F → Room F W → Option (SpawnPoint F) → Room F W × Bool
  at_spawn fl phys p r none = reject p "spawn point not available" r
  at_spawn fl phys p r (some s) =
      after_add fl (joined_player fl r s p) r (phys.add_player p.id s.position r.physics)

  abbrev pub unless_present :
      Float F → Physics F W → Player F → Room F W → Option (Player F) → Room F W × Bool
  unless_present fl phys p r (some _) = reject p "player already joined" r
  unless_present fl phys p r none =
      at_spawn fl phys p r (first_free r.players (phys.spawn_points r.physics))

  -- handleJoinEvent without its deferred function; the answer says whether the player is in.
  unfoldable pub try_join : Float F → Physics F W → Player F → Room F W → Room F W × Bool
  unfolding reject admit joined_player first_free
  try_join fl phys p r =
      if r.game_started || r.game_ended
      then reject p "game already started" r
      else if leb r.max_players (length r.players)
      then reject p "room is full" r
      else unless_present fl phys p r (lookup ℕ_discrete p.id r.players)

  -- The deferred function: a reserved place of a player who is not in is given back.
  abbrev pub settle : Bool → Room F W × Bool → Room F W
  settle true (r, joined) = if joined then r else release_join_slot r
  settle false (r, joined) = reconcile_join_slots r

  unfoldable pub handle_join_event : Float F → Physics F W → Player F → Bool → Room F W → Room F W
  unfolding try_join release_join_slot reconcile_join_slots
  handle_join_event fl phys p reserved r = settle reserved (try_join fl phys p r)

  abbrev pub leave_found : Physics F W → ℕ → Room F W → Option (Player F) → Room F W
  leave_found phys id r none = r
  leave_found phys id r (some _) =
      let left = reconcile_join_slots (record r {
        players = delete ℕ_discrete id r.players;
        sync_states = delete ℕ_discrete id r.sync_states;
      }) in
      record left { physics = (phys.remove_player id left.physics).0 }

  unfoldable pub handle_leave : Physics F W → ℕ → Room F W → Room F W
  unfolding reconcile_join_slots
  handle_leave phys id r = leave_found phys id r (lookup ℕ_discrete id r.players)
