-- ===== src/World/Simple.antt =====
-- roomserver/logic/physics.go: SimplePhysicsWorld, and the interface that the room calls over it.
use demo_server.Prelude.{
  ℕ, Bool, true, false, not, ◌&&◌, ◌||◌, Option, none, some, List, [], ◌∷◌, ◌==◌, if◌then◌else◌,
  ℕ_discrete,
}
use demo_server.Prelude.Int.{pos, negsuc}
use demo_server.Prelude.Assoc.{lookup, insert, delete}
use demo_server.Float.{Float}
use demo_server.Room.State.{
  Vector3, SpawnPoint, MoveRequest, MoveResult, RaycastHit, PhysicsError, world_closed,
  player_not_found, invalid_request, Physics,
}
use demo_server.Room.Vector.{zero_vector}
use demo_server.Room.Movement.{is_finite, clamp_float}
use demo_server.World.{
  SimpleWorld, FullMove, FullResult, RayHit, zero_float, jump_speed, player_gravity, world_limit,
}
use demo_server.World.Rays.{at_most, vector_finite, raycast_simple}

module _ {F : Type 0} (fl : Float F) where
  open fl use {ratio, add, sub, mul, div, neg, less, same}

  abbrev pub new_simple_world : SimpleWorld F
  new_simple_world = record { players = []; closed = false }

  abbrev pub simple_spawn_points : List (SpawnPoint F)
  simple_spawn_points =
      record {
        id = "spawn_a";
        position = record { x = ratio (negsuc 3) 1; y = ratio (pos 1) 10; z = (zero_float fl) };
        yaw = (zero_float fl);
      }
      ∷ record {
        id = "spawn_b";
        position = record { x = ratio (pos 4) 1; y = ratio (pos 1) 10; z = (zero_float fl) };
        yaw = ratio (pos 180) 1;
      }
      ∷ []

  unfoldable pub add_player_simple :
      ℕ → Vector3 F → SimpleWorld F → SimpleWorld F × Option PhysicsError
  add_player_simple id position w =
      if w.closed
      then (w, some world_closed)
      else (record w { players = insert ℕ_discrete id position w.players }, none)

  unfoldable pub remove_player_simple : ℕ → SimpleWorld F → SimpleWorld F × Option PhysicsError
  remove_player_simple id w =
      if w.closed
      then (w, some world_closed)
      else (record w { players = delete ℕ_discrete id w.players }, none)

  abbrev pub position_or_error : Option (Vector3 F) → Option (Vector3 F) × Option PhysicsError
  position_or_error none = (none, some player_not_found)
  position_or_error (some v) = (some v, none)

  unfoldable pub get_player_position : ℕ → SimpleWorld F → Option (Vector3 F) × Option PhysicsError
  get_player_position id w =
      if w.closed
      then (none, some world_closed)
      else position_or_error (lookup ℕ_discrete id w.players)

  abbrev pub place_found :
      ℕ → Vector3 F → SimpleWorld F → Option (Vector3 F) → SimpleWorld F × Option PhysicsError
  place_found id position w none = (w, some player_not_found)
  place_found id position w (some old) =
      (record w { players = insert ℕ_discrete id position w.players }, none)

  unfoldable pub set_player_position_simple :
      ℕ → Vector3 F → SimpleWorld F → SimpleWorld F × Option PhysicsError
  unfolding vector_finite
  set_player_position_simple id position w =
      if id == 0 || not (vector_finite fl position)
      then (w, some invalid_request)
      else if w.closed
      then (w, some world_closed)
      else place_found id position w (lookup ℕ_discrete id w.players)

  unfoldable pub close_simple : SimpleWorld F → SimpleWorld F × Option PhysicsError
  close_simple w = (record { players = []; closed = true }, none)

  unfoldable pub next_vertical_velocity : F → Bool → Bool → F → F
  next_vertical_velocity current jump grounded delta =
      if jump && grounded
      then add (jump_speed fl) (mul (player_gravity fl) delta)
      else if grounded
      then (zero_float fl)
      else add current (mul (player_gravity fl) delta)

  unfoldable pub valid_move : FullMove F → Bool
  unfolding vector_finite is_finite
  valid_move m = not (
      m.request.player_id == 0
      || not (vector_finite fl m.direction)
      || not (is_finite fl m.distance)
      || less m.distance (zero_float fl)
      || not (is_finite fl m.request.delta_time)
      || less m.request.delta_time (zero_float fl)
      || not (is_finite fl m.request.vertical_velocity))

  -- The move of a player who stands at `position`, before it is stored.
  unfoldable pub move_from : FullMove F → Vector3 F → FullResult F
  unfolding next_vertical_velocity clamp_float
  move_from m position =
      let delta =
        if at_most fl m.request.delta_time (zero_float fl)
        then ratio (pos 1) 60
        else m.request.delta_time in
      let velocity =
        next_vertical_velocity m.request.vertical_velocity m.request.jump m.request.grounded
          delta in
      let raw_x = add position.x (mul m.direction.x m.distance) in
      let raw_y = add position.y (mul velocity delta) in
      let raw_z = add position.z (mul m.direction.z m.distance) in
      let x = clamp_float fl raw_x (neg (world_limit fl)) (world_limit fl) in
      let y = clamp_float fl raw_y (zero_float fl) (world_limit fl) in
      let z = clamp_float fl raw_z (neg (world_limit fl)) (world_limit fl) in
      let grounded =
        m.request.grounded && not m.request.jump && same velocity (zero_float fl)
        || at_most fl y (zero_float fl) && at_most fl velocity (zero_float fl) in
      record {
        position = record { x = x; y = y; z = z };
        blocked = not (same x raw_x) || not (same y raw_y) || not (same z raw_z);
        grounded = grounded;
        crouched = false;
        vertical_velocity = if grounded then (zero_float fl) else velocity;
      }

  unfoldable pub move_found :
      FullMove F
      → SimpleWorld F
      → Option (Vector3 F)
      → SimpleWorld F × Option (FullResult F) × Option PhysicsError
  unfolding move_from
  move_found m w none = (w, none, some player_not_found)
  move_found m w (some position) =
      let result = move_from m position in
      (
        record w { players = insert ℕ_discrete m.request.player_id result.position w.players },
        some result,
        none,
      )

  unfoldable pub move_player_simple :
      FullMove F → SimpleWorld F → SimpleWorld F × Option (FullResult F) × Option PhysicsError
  unfolding valid_move move_found
  move_player_simple m w =
      if not (valid_move m)
      then (w, none, some invalid_request)
      else if w.closed
      then (w, none, some world_closed)
      else move_found m w (lookup ℕ_discrete m.request.player_id w.players)

  -- A request of the room: it sets neither the direction nor the distance.
  unfoldable pub of_room : MoveRequest F → FullMove F
  unfolding zero_vector
  of_room q = record { request = q; direction = zero_vector fl; distance = (zero_float fl) }

  abbrev pub short_result : Option (FullResult F) → Option (MoveResult F)
  short_result none = none
  short_result (some r) =
      some (record { position = r.position; grounded = r.grounded; crouched = r.crouched })

  abbrev pub short_hit : Option (RayHit F) → Option (RaycastHit F)
  short_hit none = none
  short_hit (some h) = some (record { hit = h.hit; target_id = h.target_id })

  -- The simple world behind the interface PhysicsWorld.
  unfoldable pub simple_physics : Physics F (SimpleWorld F)
  unfolding add_player_simple remove_player_simple move_player_simple set_player_position_simple
      raycast_simple close_simple of_room
  simple_physics = record {
    add_player = add_player_simple;
    remove_player = remove_player_simple;
    move_player =
        λ q w. (let (w', r, e) = move_player_simple (of_room q) w in (w', short_result r));
    set_player_position = set_player_position_simple;
    raycast = λ q w. (w, short_hit ((raycast_simple fl q w).0));
    spawn_points = λ w. simple_spawn_points;
    close = close_simple;
  }
