-- ===== src/Room/Update.antt =====
-- roomserver/logic/room.go: a frame of the room, the end of the match, the snapshots, the stats
-- queries and the events.
use demo_server.Prelude.{
  ℕ, ◌+◌, ◌-◌, ◌/◌, Bool, true, false, Option, none, some, List, [], ◌∷◌, map, ltb, leb, ◌==◌, ◌&&◌,
  ◌||◌, not, if◌then◌else◌, ℕ_discrete,
}
use demo_server.Prelude.Int.{pos}
use demo_server.Prelude.Assoc.{lookup}
use demo_server.Float.{Float}
use demo_server.Room.State.{
  Player, PlayerState, PlayerStats, StatsSnapshot, AuthoritativeInput, SyncState, MoveRequest,
  MoveResult, Physics, game_over, snapshot, Event, event_join, event_leave, event_input,
  event_player_stats_query, Room,
}
use demo_server.Room.Movement.{apply_view_rotation, build_move_player_request, should_move_player}
use demo_server.Room.Join.{send, send_all, handle_join_event, handle_leave}
use demo_server.Room.Inputs.{
  sync_of, set_sync, input_for_tick, cleanup_sync_state, close_sync, handle_input,
}
use demo_server.Room.Fire.{is_invincible, set_player, handle_player_fire}

module _ {F : Type 0} where
  unfoldable pub clear_expired_invincibility : ℕ → Player F → Player F
  clear_expired_invincibility tick p =
      if p.invincible_until_tick == 0 || ltb tick p.invincible_until_tick
      then p
      else record p { invincible_until_tick = 0 }

  unfoldable pub to_state_at : ℕ → Player F → PlayerState F
  unfolding is_invincible
  to_state_at tick p = record {
    player_id = p.id;
    spawn_id = p.spawn_id;
    x = p.x;
    y = p.y;
    z = p.z;
    yaw = p.yaw;
    pitch = p.pitch;
    hp = p.hp;
    kill_count = p.kill_count;
    death_count = p.death_count;
    invincible = is_invincible tick p;
    invincible_until_tick = p.invincible_until_tick;
    gun_id = p.gun_id;
    crouched = p.crouched;
  }

  unfoldable pub to_stats : Player F → PlayerStats
  to_stats p = record { player_id = p.id; kill_count = p.kill_count; death_count = p.death_count }

  -- What a move changes of a player; its vertical speed is its own.
  abbrev pub moved_to : MoveResult F → Player F → Player F
  moved_to m p = record p {
    x = m.position.x;
    y = m.position.y;
    z = m.position.z;
    grounded = m.grounded;
    crouched = m.crouched;
  }

  -- Whether the player is simulated at all in a frame.
  unfoldable pub is_moving : Float F → Player F → SyncState F → Bool → Bool
  is_moving fl p s exact =
      exact
      || s.has_last_input
      || p.crouched
      || not p.grounded
      || not (fl.same p.vertical_velocity (fl.ratio (pos 0) 1))

  -- The states of a player and of those that it sees.
  abbrev pub seen_states :
      ℕ
      → (Player F → List (Player F) → List (Player F))
      → List (Player F)
      → Player F
      → List (PlayerState F)
  seen_states tick filter_visible all p = map (to_state_at tick) (p ∷ filter_visible p all)

module _ {F W : Type 0} (fl : Float F) (phys : Physics F W) where
  abbrev pub after_move : Player F → Room F W → W × Option (MoveResult F) → Room F W
  after_move p r (w, none) = record r { physics = w }
  after_move p r (w, some m) = set_player (moved_to m p) (record r { physics = w })

  abbrev pub request_move : Player F → Room F W → Option (MoveRequest F) → Room F W
  request_move p r none = r
  request_move p r (some q) =
      if should_move_player fl q then after_move p r (phys.move_player q r.physics) else r

  abbrev pub fire_of : Room F W → Option (Player F) → Room F W
  fire_of r none = r
  fire_of r (some p) = handle_player_fire fl phys p r

  unfoldable pub simulate_player_tick : Player F → AuthoritativeInput F → Bool → Room F W → Room F W
  unfolding apply_view_rotation set_player
  simulate_player_tick p i exact r =
      let (q, wanted) = build_move_player_request fl (apply_view_rotation fl p i) i r.tick_rate in
      let moved = request_move q (set_player q r) wanted in
      if exact && i.fire then fire_of moved (lookup ℕ_discrete q.id moved.players) else moved

  unfoldable pub close_tick : ℕ → Room F W → Room F W
  unfolding sync_of set_sync cleanup_sync_state
  close_tick id r = set_sync id (close_sync r.tick (sync_of fl id r)) r

  abbrev pub simulate_if : Bool → Player F → AuthoritativeInput F → Bool → Room F W → Room F W
  simulate_if moving p i exact r = if moving then simulate_player_tick p i exact r else r

  unfoldable pub update_alive : ℕ → Player F → Room F W → Room F W
  unfolding clear_expired_invincibility set_player sync_of set_sync input_for_tick is_moving
      close_tick
  update_alive id p r =
      let q = clear_expired_invincibility r.tick p in
      let (s, i, exact) = input_for_tick fl r.tick r.max_input_hold_ticks (sync_of fl id r) in
      close_tick id
        (simulate_if (is_moving fl q s exact) q i exact (set_sync id s (set_player q r)))

  abbrev pub update_found : ℕ → Room F W → Option (Player F) → Room F W
  update_found id r none = r
  update_found id r (some p) = if not p.alive then r else update_alive id p r

  -- The loop of updatePlayers over the players' keys. A player that an earlier turn has changed
  -- is read as it is now, as through its pointer.
  unfoldable pub update_players : List ℕ → Room F W → Room F W
  unfolding update_alive
  update_players [] r = r
  update_players (id ∷ ids) r =
      update_players ids (update_found id r (lookup ℕ_discrete id r.players))

module _ {F W : Type 0} where
  unfoldable pub player_ids : Room F W → List ℕ
  player_ids r = map (λ e. e.0) r.players

  unfoldable pub player_states : Room F W → List (PlayerState F)
  unfolding to_state_at
  player_states r = map (λ e. to_state_at r.tick e.1) r.players

  unfoldable pub should_finish_game : Room F W → Bool
  should_finish_game r =
      r.game_started && not r.game_ended && ltb 0 r.game_end_tick && leb r.game_end_tick r.tick

  unfoldable pub broadcast_game_over : Room F W → Room F W
  unfolding send_all player_states
  broadcast_game_over r =
      send_all r.players (game_over r.id r.tick r.game_start_tick r.game_end_tick (player_states r))
        r

  unfoldable pub finish_game : Room F W → Room F W
  unfolding broadcast_game_over player_ids
  finish_game r =
      if r.game_ended
      then r
      else let over = broadcast_game_over (record r { game_ended = true; join_closed = true }) in
        record over { finished = player_ids over ∷ over.finished }

module _ {F W : Type 0} where
  unfoldable pub send_snapshots :
      (Player F → List (Player F) → List (Player F))
      → List (Player F)
      → List (Player F)
      → Room F W
      → Room F W
  unfolding send to_state_at
  send_snapshots filter_visible all [] r = r
  send_snapshots filter_visible all (p ∷ ps) r =
      send_snapshots filter_visible all ps
        (send p.session (snapshot r.tick (seen_states r.tick filter_visible all p)) r)

  unfoldable pub broadcast_snapshots :
      (Player F → List (Player F) → List (Player F)) → Room F W → Room F W
  unfolding send_snapshots
  broadcast_snapshots filter_visible r =
      let all = map (λ e. e.1) r.players in send_snapshots filter_visible all all r

  abbrev pub interval_ticks : Room F W → ℕ
  interval_ticks r =
      if leb (r.tick_rate / r.snapshot_rate) 0 then 1 else r.tick_rate / r.snapshot_rate

  -- The end of `update`, where the match goes on.
  unfoldable pub snapshot_if_due :
      (Player F → List (Player F) → List (Player F)) → Room F W → Room F W
  unfolding broadcast_snapshots
  snapshot_if_due filter_visible r =
      if leb r.snapshot_rate 0
      then r
      else if ltb (r.tick - r.last_snapshot_at) (interval_ticks r)
      then r
      else broadcast_snapshots filter_visible (record r { last_snapshot_at = r.tick })

  -- One frame; `true` ends the loop of the room.
  unfoldable pub update :
      Float F
      → Physics F W
      → (Player F → List (Player F) → List (Player F))
      → Room F W
      → Room F W × Bool
  unfolding update_players should_finish_game finish_game snapshot_if_due player_ids
  update fl phys filter_visible r =
      if r.game_ended
      then (r, true)
      else let ticked = record r { tick = r.tick + 1; current_tick = r.tick + 1 } in
        let played = update_players fl phys (player_ids ticked) ticked in
        if should_finish_game played
        then (finish_game played, true)
        else (snapshot_if_due filter_visible played, false)

  abbrev pub stats_of : Room F W → Option (Player F) → Option StatsSnapshot
  stats_of r none = none
  stats_of r (some p) = some (record { room_id = r.id; server_tick = r.tick; stats = to_stats p })

  abbrev pub stats_for : ℕ → Room F W → Option (Player F) → Option StatsSnapshot
  stats_for target r none = none
  stats_for target r (some _) = stats_of r (lookup ℕ_discrete target r.players)

  -- `none` is ErrPlayerStatsNotFound.
  unfoldable pub lookup_player_stats : ℕ → ℕ → Room F W → Option StatsSnapshot
  unfolding to_stats
  lookup_player_stats requester target r =
      if requester == 0
      then none
      else stats_for (if target == 0 then requester else target) r
          (lookup ℕ_discrete requester r.players)

  unfoldable pub handle_player_stats_query : ℕ → ℕ → ℕ → Room F W → Room F W
  unfolding lookup_player_stats
  handle_player_stats_query requester target channel r = record r {
    answers = (channel, lookup_player_stats requester target r) ∷ r.answers;
  }

  unfoldable pub handle_event : Float F → Physics F W → Event F → Room F W → Room F W
  unfolding handle_join_event handle_leave handle_input handle_player_stats_query
  handle_event fl phys (event_join p reserved) r = handle_join_event fl phys p reserved r
  handle_event fl phys (event_leave id) r = handle_leave phys id r
  handle_event fl phys (event_input id i) r = handle_input fl id i r
  handle_event fl phys (event_player_stats_query requester target channel) r =
      handle_player_stats_query requester target channel r
