-- ===== src/Room/State.antt =====
-- roomserver/logic: the data of room.go, player.go, movement.go, sync.go and physics.go. `F` is
-- float64 and `W` the state of the physics world. A frame number counts up from 0.
use demo_server.Prelude.{ℕ, String, Bool, List, Option}
use demo_server.Prelude.Int.{ℤ}

pub record Vector3 (F : Type 0) : Type 0 where
  pub x : F
  pub y : F
  pub z : F

-- roompb.PlayerInput, as it is decoded from a message.
pub record PlayerInput (F : Type 0) : Type 0 where
  pub client_tick : ℤ
  pub move_x : F
  pub move_z : F
  pub yaw : F
  pub pitch : F
  pub fire : Bool
  pub jump : Bool
  pub squat : Bool

pub record AuthoritativeInput (F : Type 0) : Type 0 where
  pub client_tick : ℤ
  pub move_x : F
  pub move_z : F
  pub yaw : F
  pub pitch : F
  pub fire : Bool
  pub jump : Bool
  pub squat : Bool

-- The connection of a player is named by its session's id.
pub record Player (F : Type 0) : Type 0 where
  pub id : ℕ
  pub room_id : String
  pub x : F
  pub y : F
  pub z : F
  pub yaw : F
  pub pitch : F
  pub hp : ℕ
  pub kill_count : ℕ
  pub death_count : ℕ
  pub spawn_id : String
  pub session : String
  pub alive : Bool
  pub invincible_until_tick : ℕ
  pub vertical_velocity : F
  pub grounded : Bool
  pub crouched : Bool
  pub gun_id : ℤ
  pub move : Vector3 F
  pub last_move : Vector3 F

pub record SyncState (F : Type 0) : Type 0 where
  pub inputs : List (ℕ × AuthoritativeInput F)
  pub last_input : AuthoritativeInput F
  pub has_last_input : Bool
  pub last_input_tick : ℕ
  pub last_applied_tick : ℕ
  pub last_queued_input_tick : ℕ

pub record SpawnPoint (F : Type 0) : Type 0 where
  pub id : String
  pub position : Vector3 F
  pub yaw : F

pub record MoveRequest (F : Type 0) : Type 0 where
  pub player_id : ℕ
  pub delta_time : F
  pub disp : Vector3 F
  pub jump : Bool
  pub squat : Bool
  pub crouched : Bool
  pub grounded : Bool
  pub vertical_velocity : F

pub record MoveResult (F : Type 0) : Type 0 where
  pub position : Vector3 F
  pub grounded : Bool
  pub crouched : Bool

pub record RaycastRequest (F : Type 0) : Type 0 where
  pub origin : Vector3 F
  pub direction : Vector3 F
  pub max_distance : F
  pub ignore_player_id : ℕ

pub record RaycastHit (F : Type 0) : Type 0 where
  pub hit : Bool
  pub target_id : ℕ

pub data PhysicsError : Type 0 where
  world_closed player_not_found invalid_request physics_failed : PhysicsError

-- The interface PhysicsWorld, as far as the room calls it. `none` is no error.
pub record Physics (F W : Type 0) : Type 0 where
  pub add_player : ℕ → Vector3 F → W → W × Option PhysicsError
  pub remove_player : ℕ → W → W × Option PhysicsError
  pub move_player : MoveRequest F → W → W × Option (MoveResult F)
  pub set_player_position : ℕ → Vector3 F → W → W × Option PhysicsError
  pub raycast : RaycastRequest F → W → W × Option (RaycastHit F)
  pub spawn_points : W → List (SpawnPoint F)
  pub close : W → W × Option PhysicsError

-- The state of a player in the messages of the room.
pub record PlayerState (F : Type 0) : Type 0 where
  pub player_id : ℕ
  pub spawn_id : String
  pub x : F
  pub y : F
  pub z : F
  pub yaw : F
  pub pitch : F
  pub hp : ℕ
  pub kill_count : ℕ
  pub death_count : ℕ
  pub invincible : Bool
  pub invincible_until_tick : ℕ
  pub gun_id : ℤ
  pub crouched : Bool

-- roompb.JoinRoomResp; `place` is the part that is filled in for a player.
pub record JoinPlace (F : Type 0) : Type 0 where
  pub spawn_id : String
  pub x : F
  pub y : F
  pub z : F
  pub yaw : F
  pub pitch : F
  pub gun_id : ℤ

pub record JoinAck (F : Type 0) : Type 0 where
  pub status : Bool
  pub room_id : String
  pub content : String
  pub tick : ℕ
  pub tick_rate : ℕ
  pub snapshot_rate : ℕ
  pub map_id : String
  pub physics_hash : String
  pub game_duration_seconds : ℕ
  pub game_started : Bool
  pub game_start_tick : ℕ
  pub game_end_tick : ℕ
  pub place : Option (JoinPlace F)

-- What the room sends. The wall clock that a message also carries is left out.
pub data Notice (F : Type 0) : Type 0 where
  join_ack : JoinAck F → Notice F
  game_start : String → ℕ → ℕ → ℕ → ℕ → Notice F
  game_over : String → ℕ → ℕ → ℕ → List (PlayerState F) → Notice F
  snapshot : ℕ → List (PlayerState F) → Notice F

pub record PlayerStats : Type 0 where
  pub player_id : ℕ
  pub kill_count : ℕ
  pub death_count : ℕ

pub record StatsSnapshot : Type 0 where
  pub room_id : String
  pub server_tick : ℕ
  pub stats : PlayerStats

-- The events of the queue. A query carries the number of the channel for its answer.
pub data Event (F : Type 0) : Type 0 where
  event_join : Player F → Bool → Event F
  event_leave : ℕ → Event F
  event_input : ℕ → Option (PlayerInput F) → Event F
  event_player_stats_query : ℕ → ℕ → ℕ → Event F

-- `outbox` lists what was handed to the sessions, the latest first; `answers` the answers of the
-- stats queries; `finished` the arguments of the calls of `onFinished`.
pub record Room (F W : Type 0) : Type 0 where
  pub id : String
  pub max_players : ℕ
  pub tick_rate : ℕ
  pub snapshot_rate : ℕ
  pub max_input_hold_ticks : ℕ
  pub map_id : String
  pub physics_hash : String
  pub game_duration : ℕ
  pub game_duration_ticks : ℕ
  pub game_started : Bool
  pub game_ended : Bool
  pub game_start_tick : ℕ
  pub game_end_tick : ℕ
  pub join_closed : Bool
  pub join_slots : ℕ
  pub current_tick : ℕ
  pub physics : W
  pub events : List (Event F)
  pub players : List (ℕ × Player F)
  pub sync_states : List (ℕ × SyncState F)
  pub tick : ℕ
  pub last_snapshot_at : ℕ
  pub outbox : List (String × Notice F)
  pub answers : List (ℕ × Option StatsSnapshot)
  pub finished : List (List ℕ)
