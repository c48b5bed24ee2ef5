-- ===== src/Manager.antt =====
-- roomserver/logic/room_manager.go: the rooms of a roomserver and who is in which. The clients of
-- the logicserver and the physics factory are arguments, as what they answer.
use demo_server.Prelude.{
  ℕ, ◌+◌, String, Bool, true, false, Option, none, some, List, [], ◌∷◌, map, ltb, leb, ◌==◌, ◌&&◌,
  not, length, if◌then◌else◌, ite, ℕ_discrete, ◌⊎◌, inl, inr,
}
use demo_server.Prelude.Int.{ℤ, pos, negsuc, positive_or}
use demo_server.Prelude.Text.{string_discrete, is_empty}
use demo_server.Prelude.Assoc.{lookup, insert, delete}
use demo_server.Room.State.{Vector3, Player, PlayerInput, Room}
use demo_server.Room.Create.{new_room, normalize_hold, bounded_or}
use demo_server.Room.Join.{join, leave, push_input}
pub mod Settle
pub mod Rewards
pub mod Index
mod Limit
mod Tests

pub data ManagerError : Type 0 where
  load_gun_failed room_limit_reached new_world_failed already_started event_queue_full
        player_room_not_found :
      ManagerError

-- What GetEquipGun answers.
pub data EquipAnswer : Type 0 where
  equip_error no_response : EquipAnswer
  equip_response : Bool → ℤ → EquipAnswer

-- logicpb.SettleUpGameRewardAndKdReq
pub record Settlement : Type 0 where
  pub player_ids : List ℕ
  pub kill_count : List ℕ
  pub coin : List ℕ
  pub exp : List ℕ

-- `settled` lists the requests that were sent to the logicserver, the latest first.
pub record Manager (F W : Type 0) : Type 0 where
  pub rooms : List (String × Room F W)
  pub player_rooms : List (ℕ × String)
  pub max_rooms : ℕ
  pub max_players_per_room : ℕ
  pub tick_rate : ℕ
  pub snapshot_rate : ℕ
  pub hold_ticks : ℕ
  pub map_id : String
  pub physics_hash : String
  pub game_duration : ℤ
  pub settled : List Settlement

module _ {F : Type 0} where
  -- The player as JoinRoom hands it to the room.
  abbrev pub equipped : Vector3 F → ℤ → Player F → Player F
  equipped zero gun p = record p { move = zero; last_move = zero; gun_id = gun }

module _ {F W : Type 0} where
  unfoldable pub new_room_manager : ℤ → ℤ → ℤ → ℤ → ℤ → String → String → ℤ → Manager F W
  unfolding normalize_hold
  new_room_manager max_rooms max_players tick_rate snapshot_rate hold map_id physics_hash duration =
      let rate = positive_or 20 tick_rate in
      record {
        rooms = [];
        player_rooms = [];
        max_rooms = positive_or 1000 max_rooms;
        max_players_per_room = positive_or 2 max_players;
        tick_rate = rate;
        snapshot_rate = bounded_or rate rate snapshot_rate;
        hold_ticks = normalize_hold hold;
        map_id = map_id;
        physics_hash = physics_hash;
        game_duration = duration;
        settled = [];
      }

  -- The room that the manager makes over a new world.
  unfoldable pub room_over : Manager F W → String → W → Room F W
  unfolding new_room
  room_over m id w =
      new_room id (pos m.max_players_per_room) (pos m.tick_rate) (pos m.snapshot_rate) w
        (pos m.hold_ticks) m.map_id m.physics_hash m.game_duration

  unfoldable pub put_room : String → Room F W → Manager F W → Manager F W
  put_room id r m = record m { rooms = insert string_discrete id r m.rooms }

  abbrev pub create_over : String → Manager F W → Option W → Manager F W × (ManagerError ⊎ Room F W)
  create_over id m none = (m, inl new_world_failed)
  create_over id m (some w) = (put_room id (room_over m id w) m, inr (room_over m id w))

  abbrev pub room_or_create :
      (String → Option W)
      → String
      → Manager F W
      → Option (Room F W)
      → Manager F W × (ManagerError ⊎ Room F W)
  room_or_create new_world id m (some r) = (m, inr r)
  room_or_create new_world id m none =
      if leb m.max_rooms (length m.rooms)
      then (m, inl room_limit_reached)
      else create_over id m (new_world id)

  unfoldable pub get_or_create_room :
      (String → Option W) → String → Manager F W → Manager F W × (ManagerError ⊎ Room F W)
  unfolding put_room room_over
  get_or_create_room new_world id m =
      room_or_create new_world id m (lookup string_discrete id m.rooms)

  abbrev pub after_join :
      String → Player F → Manager F W → Room F W × Bool → Manager F W × Option ManagerError
  after_join id p m (r, true) =
      (record (put_room id r m) { player_rooms = insert ℕ_discrete p.id id m.player_rooms }, none)
  after_join id p m (r, false) =
      (put_room id r m, some (if r.join_closed then already_started else event_queue_full))

  abbrev pub join_found :
      String
      → Player F
      → Manager F W × (ManagerError ⊎ Room F W)
      → Manager F W × Option ManagerError
  join_found id p (m, inl e) = (m, some e)
  join_found id p (m, inr r) =
      if r.join_closed then (m, some already_started) else after_join id p m (join p r)

  -- `none` is no error.
  unfoldable pub join_room :
      Vector3 F
      → (String → Option W)
      → EquipAnswer
      → String
      → Player F
      → Manager F W
      → Manager F W × Option ManagerError
  unfolding get_or_create_room
  join_room zero new_world equip_error id p m = (m, some load_gun_failed)
  join_room zero new_world no_response id p m = (m, some load_gun_failed)
  join_room zero new_world (equip_response false gun) id p m = (m, some load_gun_failed)
  join_room zero new_world (equip_response true gun) id p m =
      join_found id (equipped zero gun p) (get_or_create_room new_world id m)

  abbrev pub leave_in : ℕ → String → Manager F W → Option (Room F W) → Manager F W
  leave_in player id m none = m
  leave_in player id m (some r) = put_room id (leave player r).0 m

  abbrev pub leave_from : ℕ → String → Manager F W → Option String → Manager F W
  leave_from player id m none = m
  leave_from player id m (some current) =
      if not (is_empty id) && not (ite (string_discrete current id) true false)
      then m
      else let left = record m { player_rooms = delete ℕ_discrete player m.player_rooms } in
        leave_in player current left (lookup string_discrete current left.rooms)

  unfoldable pub leave_room : ℕ → String → Manager F W → Manager F W
  unfolding put_room
  leave_room player id m = leave_from player id m (lookup ℕ_discrete player m.player_rooms)

  abbrev pub room_at : Manager F W → Option String → Option (String × Room F W)
  room_at m none = none
  room_at m (some id) = elim (lookup string_discrete id m.rooms) [
    | none ↦ none
    | some r ↦ some (id, r)
  ]

  unfoldable pub player_room : ℕ → Manager F W → Option (String × Room F W)
  player_room player m = room_at m (lookup ℕ_discrete player m.player_rooms)

  abbrev pub push_at :
      ℕ
      → Option (PlayerInput F)
      → Manager F W
      → Option (String × Room F W)
      → Manager F W × Option ManagerError
  push_at player i m none = (m, some player_room_not_found)
  push_at player i m (some (id, r)) =
      let (r', pushed) = push_input player i r in
      (put_room id r' m, if pushed then none else some event_queue_full)

  unfoldable pub push_player_input :
      ℕ → Option (PlayerInput F) → Manager F W → Manager F W × Option ManagerError
  unfolding player_room put_room
  push_player_input player i m = push_at player i m (player_room player m)
