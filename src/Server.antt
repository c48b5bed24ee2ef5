-- ===== src/Server.antt =====
-- roomserver/service/server.go: what a connection's messages do to its session and to the rooms.
-- The decoding of protobuf and jwt-go are arguments.
use demo_server.Prelude.{
  ℕ, String, Bool, true, false, Option, none, some, List, ◌==◌, ◌||◌, if◌then◌else◌, ite,
}
use demo_server.Prelude.Int.{ℤ, pos, negsuc}
use demo_server.Prelude.Text.{string_discrete, is_empty}
use demo_server.Float.{Float}
use demo_server.Room.State.{Vector3, Player, PlayerInput}
use demo_server.Room.Vector.{zero_vector}
use demo_server.RoomToken.{Claims, Jwt, Result, ok, err, parse}
use demo_server.Session.{Session, set_player_of}
use demo_server.Manager.{
  Manager, ManagerError, EquipAnswer, join_room, leave_room, push_player_input,
}
pub mod Access
pub mod Samples
mod Tests

-- The codes that sendError answers.
pub data ErrorCode : Type 0 where
  bad_request invalid_token server_mismatch join_failed not_joined input_failed : ErrorCode

-- The settings that the handlers read.
pub record ServerConfig : Type 0 where
  pub token_secret : String
  pub server_id : String

-- A session, the manager, and the code of the error that is sent, if any.
pub record Handled (F W : Type 0) : Type 0 where
  pub session : Session
  pub manager : Manager F W
  pub error : Option ErrorCode

module _ {F : Type 0} where
  -- The player that handleJoinRoom makes, its other fields at their zero values.
  unfoldable pub player_for : Float F → Claims → Session → Player F
  unfolding zero_vector
  player_for fl c s =
      let zero = fl.ratio (pos 0) 1 in
      record {
        id = c.player_id;
        room_id = c.room_id;
        x = zero;
        y = zero;
        z = zero;
        yaw = zero;
        pitch = zero;
        hp = 0;
        kill_count = 0;
        death_count = 0;
        spawn_id = "";
        session = s.id;
        alive = false;
        invincible_until_tick = 0;
        vertical_velocity = fl.ratio (negsuc 6) 1;
        grounded = false;
        crouched = false;
        gun_id = pos 0;
        move = zero_vector fl;
        last_move = zero_vector fl;
      }

module _ {F W : Type 0} where
  abbrev pub refused : ErrorCode → Session → Manager F W → Handled F W
  refused code s m = record { session = s; manager = m; error = some code }

  abbrev pub after_join_room : Claims → Session → Manager F W × Option ManagerError → Handled F W
  after_join_room c s (m, some e) = refused join_failed s m
  after_join_room c s (m, none) = record {
    session = set_player_of c.player_id c.room_id s;
    manager = m;
    error = none;
  }

module _ {F W : Type 0} (fl : Float F) (new_world : String → Option W) (equip : EquipAnswer)
    (cfg : ServerConfig) where
  abbrev pub with_claims : Session → Manager F W → Result Claims → Handled F W
  unfolding set_player_of
  with_claims s m (err e) = refused invalid_token s m
  with_claims s m (ok c) =
      if ite (string_discrete c.server_id cfg.server_id) false true
      then refused server_mismatch s m
      else if is_empty c.room_id || c.player_id == 0
      then refused invalid_token s m
      else after_join_room c s
          (join_room (zero_vector fl) new_world equip c.room_id (player_for fl c s) m)

  abbrev pub with_token : Jwt → ℕ → Session → Manager F W → Option String → Handled F W
  unfolding with_claims parse
  with_token jwt now s m none = refused bad_request s m
  with_token jwt now s m (some token) = with_claims s m (parse jwt cfg.token_secret token now)

  -- `decode` gives the token of a JoinRoomReq, none for a payload that is no such request.
  unfoldable pub handle_join_room :
      (List ℕ → Option String) → Jwt → ℕ → List ℕ → Session → Manager F W → Handled F W
  unfolding with_token join_room player_for
  handle_join_room decode jwt now payload s m = with_token jwt now s m (decode payload)

module _ {F W : Type 0} where
  unfoldable pub handle_leave_room : Session → Manager F W → Handled F W
  unfolding leave_room set_player_of
  handle_leave_room s m = if s.player_id == 0 then refused not_joined s m else record {
    session = set_player_of 0 "" s;
    manager = leave_room s.player_id s.room_id m;
    error = none;
  }

  abbrev pub after_push : Session → Manager F W × Option ManagerError → Handled F W
  after_push s (m, some e) = refused input_failed s m
  after_push s (m, none) = record { session = s; manager = m; error = none }

  abbrev pub with_input : Session → Manager F W → Option (PlayerInput F) → Handled F W
  unfolding push_player_input
  with_input s m none = refused bad_request s m
  with_input s m (some i) = after_push s (push_player_input s.player_id (some i) m)

  unfoldable pub handle_player_input :
      (List ℕ → Option (PlayerInput F)) → List ℕ → Session → Manager F W → Handled F W
  unfolding with_input
  handle_player_input decode payload s m =
      if s.player_id == 0 then refused not_joined s m else with_input s m (decode payload)

  unfoldable pub handle_session_closed : Session → Manager F W → Manager F W
  unfolding leave_room
  handle_session_closed s m = if s.player_id == 0 then m else leave_room s.player_id s.room_id m
