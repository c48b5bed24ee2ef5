-- ===== src/Map.antt =====
-- roomserver/physx/map_collision.go: the collision data of a map.
use demo_server.Prelude.{ℕ, String, Bool, List}
use demo_server.Prelude.Int.{ℤ}
use demo_server.Room.State.{Vector3}
pub mod Mesh
pub mod Check
pub mod Valid
pub mod Sound
pub mod Path
pub mod Load
mod Tests

-- QuatRaw
pub record Quaternion (F : Type 0) : Type 0 where
  pub x : F
  pub y : F
  pub z : F
  pub w : F

-- The fields that the code reads; radius, height and direction are only decoded.
pub record MapCollider (F : Type 0) : Type 0 where
  pub id : String
  pub shape : String
  pub position : Vector3 F
  pub rotation : Quaternion F
  pub size : Vector3 F
  pub vertices : List F
  pub triangles : List ℤ
  pub is_trigger : Bool

pub record MapSpawnPoint (F : Type 0) : Type 0 where
  pub id : String
  pub position : Vector3 F
  pub rotation : Quaternion F

pub record MapCollision (F : Type 0) : Type 0 where
  pub map_id : String
  pub map_version : ℤ
  pub physics_hash : String
  pub units : String
  pub rotation : String
  pub colliders : List (MapCollider F)
  pub spawn_points : List (MapSpawnPoint F)

-- The errors of a collider. `index_panic` is an index outside of a slice, which ends the call.
pub data ColliderError : Type 0 where
  id_empty position_invalid rotation_invalid box_size_invalid unsupported_shape : ColliderError
  mesh_vertices_invalid mesh_triangles_invalid index_panic : ColliderError
  mesh_vertex_invalid triangle_out_of_range triangle_degenerate : ℕ → ColliderError

pub data SpawnError : Type 0 where
  spawn_id_empty spawn_position_invalid spawn_rotation_invalid : SpawnError

pub data MapError : Type 0 where
  map_id_empty map_id_mismatch units_unsupported rotation_unsupported colliders_empty : MapError
  invalid_collider : ℕ → ColliderError → MapError
  invalid_spawn_point : ℕ → SpawnError → MapError

-- MapCollisionMetadata
pub record MapMetadata : Type 0 where
  pub map_id : String
  pub map_version : ℤ
  pub physics_hash : String
  pub collider_count : ℕ
  pub spawn_point_count : ℕ
