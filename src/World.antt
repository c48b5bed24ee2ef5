-- ===== src/World.antt =====
-- roomserver/logic/physics.go: the data of the simple physics world. A player of a finished world is
-- none: Close sets the map to nil.
use demo_server.Prelude.{ℕ, Bool, true, false, List, []}
use demo_server.Prelude.Int.{ℤ, pos, negsuc}
use demo_server.Float.{Float}
use demo_server.Room.State.{Vector3, MoveRequest}
pub mod Rays
pub mod Simple
pub mod Nearest
pub mod Still
pub mod Aoi
pub mod Seen
mod Tests

-- SimplePhysicsWorld
pub record SimpleWorld (F : Type 0) : Type 0 where
  pub players : List (ℕ × Vector3 F)
  pub closed : Bool

-- MovePlayerRequest: what the room fills, with the two fields that it leaves at zero.
pub record FullMove (F : Type 0) : Type 0 where
  pub request : MoveRequest F
  pub direction : Vector3 F
  pub distance : F

-- MovePlayerResult
pub record FullResult (F : Type 0) : Type 0 where
  pub position : Vector3 F
  pub blocked : Bool
  pub grounded : Bool
  pub crouched : Bool
  pub vertical_velocity : F

-- RaycastHit
pub record RayHit (F : Type 0) : Type 0 where
  pub hit : Bool
  pub target_id : ℕ
  pub point : Vector3 F
  pub normal : Vector3 F
  pub distance : F

module _ {F : Type 0} (fl : Float F) where
  open fl use {ratio}

  abbrev pub zero_float : F
  zero_float = ratio (pos 0) 1

  abbrev pub capsule_radius : F
  capsule_radius = ratio (pos 7) 20

  -- The height of 1.8, times 0.5.
  abbrev pub capsule_half_height : F
  capsule_half_height = ratio (pos 9) 10

  abbrev pub jump_speed : F
  jump_speed = ratio (pos 5) 1

  abbrev pub player_gravity : F
  player_gravity = ratio (negsuc 48) 5

  abbrev pub world_limit : F
  world_limit = ratio (pos 100) 1
