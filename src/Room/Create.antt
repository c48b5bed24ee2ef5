-- ===== src/Room/Create.antt =====
-- roomserver/logic/room.go and sync.go: a new room, with the defaults of its parameters. An int or
-- a duration is an integer that may be negative or 0; the defaults make it a number.
use demo_server.Prelude.{ℕ, ◌*◌, ◌/◌, ◌%◌, ◌^◌, String, false, [], leb, ltb, if◌then◌else◌}
use demo_server.Prelude.Int.{ℤ, pos, negsuc, positive_or}
use demo_server.Room.State.{Room}

abbrev pub second : ℕ
second = 1_000_000_000

abbrev pub default_game_duration : ℕ
default_game_duration = 180_000_000_000

-- The signed product of 64 bits is divided; a product that is not positive gives one tick.
unfoldable pub duration_to_ticks : ℕ → ℕ → ℕ
duration_to_ticks duration tick_rate =
    let d = if leb duration 0 then default_game_duration else duration in
    let rate = if leb tick_rate 0 then 20 else tick_rate in
    let product = (d * rate) % 2 ^ 64 in
    if leb (2 ^ 63) product then 1 else if leb (product / second) 0 then 1 else product / second

-- SyncConfig.Normalize
unfoldable pub normalize_hold : ℤ → ℕ
normalize_hold (pos n) = n
normalize_hold (negsuc n) = 8

abbrev pub bounded_or : ℕ → ℕ → ℤ → ℕ
bounded_or d limit (pos n) = if leb n 0 then d else if ltb limit n then d else n
bounded_or d limit (negsuc n) = d

module _ {F W : Type 0} where
  unfoldable pub new_room : String → ℤ → ℤ → ℤ → W → ℤ → String → String → ℤ → Room F W
  unfolding duration_to_ticks normalize_hold
  new_room id max_players tick_rate snapshot_rate physics hold map_id physics_hash duration =
      let rate = positive_or 20 tick_rate in
      let game = positive_or default_game_duration duration in
      record {
        id = id;
        max_players = positive_or 2 max_players;
        tick_rate = rate;
        snapshot_rate = bounded_or rate rate snapshot_rate;
        max_input_hold_ticks = normalize_hold hold;
        map_id = map_id;
        physics_hash = physics_hash;
        game_duration = game;
        game_duration_ticks = duration_to_ticks game rate;
        game_started = false;
        game_ended = false;
        game_start_tick = 0;
        game_end_tick = 0;
        join_closed = false;
        join_slots = 0;
        current_tick = 0;
        physics = physics;
        events = [];
        players = [];
        sync_states = [];
        tick = 0;
        last_snapshot_at = 0;
        outbox = [];
        answers = [];
        finished = [];
      }
