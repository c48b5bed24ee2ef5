-- ===== src/Room/Fire.antt =====
-- roomserver/logic/room.go: a shot, its damage, and the respawn of the player that it kills.
use demo_server.Prelude.{
  ℕ, ◌+◌, ◌-◌, String, Bool, true, false, Option, none, some, List, [], ◌∷◌, ltb, ◌==◌, ◌||◌, not,
  if◌then◌else◌, ite, ℕ_discrete,
}
use demo_server.Prelude.Int.{pos}
use demo_server.Prelude.Text.{string_discrete, is_empty}
use demo_server.Prelude.Assoc.{lookup, insert}
use demo_server.Float.{Float}
use demo_server.Room.State.{
  Player, SpawnPoint, Physics, PhysicsError, world_closed, player_not_found, invalid_request,
  physics_failed, RaycastHit, RaycastRequest, Room,
}
use demo_server.Room.Create.{duration_to_ticks}
use demo_server.Room.Movement.{view_direction}
use demo_server.Room.Join.{place_at}
use demo_server.Room.Inputs.{sync_of, set_sync, discard_future}

-- The world after AddPlayer, and whether it went well.
abbrev pub add_ok : {W : Type 0} → W × Option PhysicsError → W × Bool
add_ok (w, none) = (w, true)
add_ok (w, some _) = (w, false)

module _ {F : Type 0} where
  unfoldable pub is_invincible : ℕ → Player F → Bool
  is_invincible tick p = ltb tick p.invincible_until_tick

  -- The loop of spawnPointByID.
  unfoldable pub find_spawn : String → List (SpawnPoint F) → Option (SpawnPoint F)
  find_spawn id [] = none
  find_spawn id (s ∷ ss) = ite (string_discrete s.id id) (some s) (find_spawn id ss)

  unfoldable pub spawn_point_by_id : String → List (SpawnPoint F) → Option (SpawnPoint F)
  unfolding find_spawn
  spawn_point_by_id id ss = if is_empty id then none else find_spawn id ss

  -- The ray from the eyes of a player along its view.
  unfoldable pub fire_ray : Float F → Player F → RaycastRequest F
  unfolding view_direction
  fire_ray fl p = record {
    origin = record { x = p.x; y = fl.add p.y (fl.ratio (pos 17) 10); z = p.z };
    direction = view_direction fl p.yaw p.pitch;
    max_distance = fl.ratio (pos 100) 1;
    ignore_player_id = p.id;
  }

module _ {F W : Type 0} where
  -- What is written through the pointer to a player of the room.
  unfoldable pub set_player : Player F → Room F W → Room F W
  set_player p r = record r { players = insert ℕ_discrete p.id p r.players }

  -- SetPlayerPosition, with AddPlayer where the world does not know the player; the answer says
  -- whether one of them went well.
  abbrev pub or_add : Physics F W → ℕ → SpawnPoint F → W × Option PhysicsError → W × Bool
  or_add phys id s (w, none) = (w, true)
  or_add phys id s (w, some player_not_found) = add_ok (phys.add_player id s.position w)
  or_add phys id s (w, some world_closed) = (w, false)
  or_add phys id s (w, some invalid_request) = (w, false)
  or_add phys id s (w, some physics_failed) = (w, false)

  abbrev pub revive : Float F → Player F → SpawnPoint F → Room F W → W × Bool → Room F W
  revive fl p s r (w, false) = record r { physics = w }
  revive fl p s r (w, true) =
      let r' =
        set_player (place_at fl s (r.tick + duration_to_ticks 5_000_000_000 r.tick_rate) p)
          (record r { physics = w }) in
      set_sync p.id (discard_future fl r.tick (sync_of fl p.id r')) r'

  abbrev pub respawn_at :
      Float F → Physics F W → Player F → Room F W → Option (SpawnPoint F) → Room F W
  respawn_at fl phys p r none = r
  respawn_at fl phys p r (some s) =
      revive fl p s r (or_add phys p.id s (phys.set_player_position p.id s.position r.physics))

  unfoldable pub respawn_player_at_spawn : Float F → Physics F W → Player F → Room F W → Room F W
  unfolding spawn_point_by_id place_at set_player discard_future set_sync sync_of
  respawn_player_at_spawn fl phys p r =
      if is_empty p.spawn_id
      then r
      else respawn_at fl phys p r (spawn_point_by_id p.spawn_id (phys.spawn_points r.physics))

  -- The kill counts for the shooter unless it is its own target.
  abbrev pub count_kill : Player F → Player F → Room F W → Room F W
  count_kill shooter target r =
      if shooter.id == target.id
      then r
      else set_player (record shooter { kill_count = shooter.kill_count + 1 }) r

  -- `target.HP -= 20`, not below 0: subtraction of numbers stops there.
  unfoldable pub apply_fire_damage :
      Float F → Physics F W → Player F → Player F → Room F W → Room F W
  unfolding is_invincible set_player respawn_player_at_spawn
  apply_fire_damage fl phys shooter target r =
      if not target.alive
      then r
      else if is_invincible r.tick target
      then r
      else if ltb 0 (target.hp - 20)
      then set_player (record target { hp = target.hp - 20 }) r
      else let dead = record target {
        hp = target.hp - 20;
        death_count = target.death_count + 1;
        alive = false;
      } in
        respawn_player_at_spawn fl phys dead (set_player dead (count_kill shooter target r))

  abbrev pub hit_player : Float F → Physics F W → Player F → Room F W → Option (Player F) → Room F W
  hit_player fl phys shooter r none = r
  hit_player fl phys shooter r (some target) =
      if not target.alive then r else apply_fire_damage fl phys shooter target r

  abbrev pub after_ray :
      Float F → Physics F W → Player F → Room F W → W × Option (RaycastHit F) → Room F W
  after_ray fl phys shooter r (w, none) = record r { physics = w }
  after_ray fl phys shooter r (w, some h) =
      let r' = record r { physics = w } in
      if not h.hit || h.target_id == 0 || h.target_id == shooter.id
      then r'
      else hit_player fl phys shooter r' (lookup ℕ_discrete h.target_id r'.players)

  unfoldable pub handle_player_fire : Float F → Physics F W → Player F → Room F W → Room F W
  unfolding apply_fire_damage fire_ray
  handle_player_fire fl phys shooter r =
      if not shooter.alive
      then r
      else after_ray fl phys shooter r (phys.raycast (fire_ray fl shooter) r.physics)
