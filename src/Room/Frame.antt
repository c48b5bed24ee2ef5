-- ===== src/Room/Frame.antt =====
-- roomserver/logic/room.go: the part of a room that the simulation of a frame does not write.
use demo_server.Prelude.{
  ℕ, String, Bool, true, false, Option, none, some, List, [], ◌∷◌, ◌≡◌, refl, ◌∙◌, not, ◌==◌, ◌-◌,
  ◌+◌, ltb, if◌then◌else◌, ℕ_discrete, ◌&&◌, ◌||◌,
}
use demo_server.Prelude.Text.{is_empty}
use demo_server.Prelude.Assoc.{lookup}
use demo_server.Float.{Float}
use demo_server.Room.State.{
  Player, AuthoritativeInput, SpawnPoint, Physics, MoveRequest, MoveResult, RaycastHit, Notice,
  Event, StatsSnapshot, Room,
}
use demo_server.Room.Inputs.{sync_of, set_sync, input_for_tick}
use demo_server.Room.Movement.{build_move_player_request, apply_view_rotation, should_move_player}
use demo_server.Room.Fire.{
  set_player, or_add, revive, respawn_at, respawn_player_at_spawn, spawn_point_by_id, count_kill,
  apply_fire_damage, hit_player, after_ray, handle_player_fire, is_invincible, fire_ray,
}
use demo_server.Room.Update.{
  after_move, request_move, fire_of, simulate_player_tick, simulate_if, update_alive, update_found,
  update_players, clear_expired_invincibility, is_moving,
}

pub record Frame (F : Type 0) : Type 0 where
  pub id : String
  pub max_players : ℕ
  pub tick_rate : ℕ
  pub snapshot_rate : ℕ
  pub max_input_hold_ticks : ℕ
  pub game_duration_ticks : ℕ
  pub game_started : Bool
  pub game_ended : Bool
  pub game_start_tick : ℕ
  pub game_end_tick : ℕ
  pub join_closed : Bool
  pub join_slots : ℕ
  pub current_tick : ℕ
  pub events : List (Event F)
  pub tick : ℕ
  pub last_snapshot_at : ℕ
  pub outbox : List (String × Notice F)
  pub answers : List (ℕ × Option StatsSnapshot)
  pub finished : List (List ℕ)

abbrev pub frame : {F W : Type 0} → Room F W → Frame F
frame r = record {
  id = r.id;
  max_players = r.max_players;
  tick_rate = r.tick_rate;
  snapshot_rate = r.snapshot_rate;
  max_input_hold_ticks = r.max_input_hold_ticks;
  game_duration_ticks = r.game_duration_ticks;
  game_started = r.game_started;
  game_ended = r.game_ended;
  game_start_tick = r.game_start_tick;
  game_end_tick = r.game_end_tick;
  join_closed = r.join_closed;
  join_slots = r.join_slots;
  current_tick = r.current_tick;
  events = r.events;
  tick = r.tick;
  last_snapshot_at = r.last_snapshot_at;
  outbox = r.outbox;
  answers = r.answers;
  finished = r.finished;
}

-- Either branch of a test.
frame-if :
    {F W : Type 0} (b : Bool) (x y r : Room F W)
    → frame x ≡ frame r
    → frame y ≡ frame r
    → frame (if b then x else y) ≡ frame r
frame-if true x y r p q = p
frame-if false x y r p q = q

module _ {F W : Type 0} (fl : Float F) (phys : Physics F W) where
  frame-revive :
      (p : Player F) (s : SpawnPoint F) (r : Room F W) (o : W × Bool)
      → frame (revive fl p s r o) ≡ frame r
  unfolding set_player set_sync
  frame-revive p s r (w, true) = refl
  frame-revive p s r (w, false) = refl

  frame-respawn_at :
      (p : Player F) (r : Room F W) (o : Option (SpawnPoint F))
      → frame (respawn_at fl phys p r o) ≡ frame r
  frame-respawn_at p r none = refl
  frame-respawn_at p r (some s) =
      frame-revive p s r (or_add phys p.id s (phys.set_player_position p.id s.position r.physics))

  frame-respawn :
      (p : Player F) (r : Room F W) → frame (respawn_player_at_spawn fl phys p r) ≡ frame r
  unfolding respawn_player_at_spawn
  frame-respawn p r =
      frame-if (is_empty p.spawn_id) r _ r refl
        (frame-respawn_at p r (spawn_point_by_id p.spawn_id (phys.spawn_points r.physics)))

  frame-count_kill :
      (shooter target : Player F) (r : Room F W) → frame (count_kill shooter target r) ≡ frame r
  unfolding set_player
  frame-count_kill shooter target r = frame-if (shooter.id == target.id) r _ r refl refl

  frame-killed :
      (shooter target dead : Player F) (r : Room F W)
      → frame (respawn_player_at_spawn fl phys dead (set_player dead (count_kill shooter target r)))
        ≡ frame r
  unfolding set_player
  frame-killed shooter target dead r =
      frame-respawn dead (set_player dead (count_kill shooter target r))
      ∙ frame-count_kill shooter target r

  frame-apply_fire_damage :
      (shooter target : Player F) (r : Room F W)
      → frame (apply_fire_damage fl phys shooter target r) ≡ frame r
  unfolding apply_fire_damage
  frame-apply_fire_damage shooter target r = frame-if (not target.alive) r _ r refl (
      frame-if (is_invincible r.tick target) r _ r refl (
        frame-if (ltb 0 (target.hp - 20)) _ _ r refl (
          frame-killed shooter target
            (record target {
              hp = target.hp - 20;
              death_count = target.death_count + 1;
              alive = false;
            })
            r)))

  frame-hit_player :
      (shooter : Player F) (r : Room F W) (o : Option (Player F))
      → frame (hit_player fl phys shooter r o) ≡ frame r
  frame-hit_player shooter r none = refl
  frame-hit_player shooter r (some target) =
      frame-if (not target.alive) r _ r refl (frame-apply_fire_damage shooter target r)

  frame-after_ray :
      (shooter : Player F) (r : Room F W) (o : W × Option (RaycastHit F))
      → frame (after_ray fl phys shooter r o) ≡ frame r
  frame-after_ray shooter r (w, none) = refl
  frame-after_ray shooter r (w, some h) =
      frame-if (not h.hit || h.target_id == 0 || h.target_id == shooter.id) _ _ r refl (
        frame-hit_player shooter (record r { physics = w })
          (lookup ℕ_discrete h.target_id r.players))

  frame-fire : (p : Player F) (r : Room F W) → frame (handle_player_fire fl phys p r) ≡ frame r
  unfolding handle_player_fire
  frame-fire p r =
      let o = phys.raycast (fire_ray fl p) r.physics in
      frame-if (not p.alive) r (after_ray fl phys p r o) r refl (frame-after_ray p r o)

  frame-fire_of : (r : Room F W) (o : Option (Player F)) → frame (fire_of fl phys r o) ≡ frame r
  frame-fire_of r none = refl
  frame-fire_of r (some p) = frame-fire p r

  frame-after_move :
      (p : Player F) (r : Room F W) (o : W × Option (MoveResult F))
      → frame (after_move fl phys p r o) ≡ frame r
  unfolding set_player
  frame-after_move p r (w, none) = refl
  frame-after_move p r (w, some m) = refl

  frame-request_move :
      (p : Player F) (r : Room F W) (o : Option (MoveRequest F))
      → frame (request_move fl phys p r o) ≡ frame r
  frame-request_move p r none = refl
  frame-request_move p r (some q) =
      frame-if (should_move_player fl q) _ r r (frame-after_move p r (phys.move_player q r.physics))
        refl

  frame-simulate :
      (p : Player F) (i : AuthoritativeInput F) (exact : Bool) (r : Room F W)
      → frame (simulate_player_tick fl phys p i exact r) ≡ frame r
  unfolding simulate_player_tick
  frame-simulate p i exact r =
      let (q, wanted) = build_move_player_request fl (apply_view_rotation fl p i) i r.tick_rate in
      let moved : Room F W = request_move fl phys q (set_player q r) wanted in
      let same : frame moved ≡ frame r = frame-request_move q (set_player q r) wanted in
      frame-if (exact && i.fire) _ _ r
        (frame-fire_of moved (lookup ℕ_discrete q.id moved.players) ∙ same) same

  frame-simulate_if :
      (moving : Bool) (p : Player F) (i : AuthoritativeInput F) (exact : Bool) (r : Room F W)
      → frame (simulate_if fl phys moving p i exact r) ≡ frame r
  frame-simulate_if moving p i exact r = frame-if moving _ r r (frame-simulate p i exact r) refl

  frame-update_alive :
      (id : ℕ) (p : Player F) (r : Room F W) → frame (update_alive fl phys id p r) ≡ frame r
  unfolding update_alive
  frame-update_alive id p r =
      let q = clear_expired_invincibility r.tick p in
      let (s, i, exact) = input_for_tick fl r.tick r.max_input_hold_ticks (sync_of fl id r) in
      frame-simulate_if (is_moving fl q s exact) q i exact (set_sync id s (set_player q r))

  frame-update_found :
      (id : ℕ) (r : Room F W) (o : Option (Player F))
      → frame (update_found fl phys id r o) ≡ frame r
  frame-update_found id r none = refl
  frame-update_found id r (some p) = frame-if (not p.alive) r _ r refl (frame-update_alive id p r)

  -- The simulation of a frame changes no clock, message or event of the room and none of its rates,
  -- limits and durations in frames.
  pub frame-update_players :
      (ids : List ℕ) (r : Room F W) → frame (update_players fl phys ids r) ≡ frame r
  unfolding update_players
  frame-update_players [] r = refl
  frame-update_players (id ∷ ids) r =
      let r' : Room F W = update_found fl phys id r (lookup ℕ_discrete id r.players) in
      frame-update_players ids r' ∙ frame-update_found id r (lookup ℕ_discrete id r.players)
