-- ===== src/Map/Check.antt =====
-- roomserver/physx/map_collision.go: the check of a whole map. strings.ToLower and math.Atan2 are
-- parameters.
use demo_server.Prelude.{
  ℕ, ◌+◌, String, Bool, true, false, not, ◌&&◌, List, [], ◌∷◌, map, length, ite, if◌then◌else◌,
}
use demo_server.Prelude.Int.{pos}
use demo_server.Prelude.Text.{is_empty, trim_space, string_discrete}
use demo_server.Prelude.Actions.{Result, ok, err}
use demo_server.Float.{Float}
use demo_server.Room.State.{Vector3, SpawnPoint}
use demo_server.Room.Movement.{is_finite, normalize_degrees}
use demo_server.World.Rays.{at_most, vector_finite}
use demo_server.Map.{
  Quaternion, MapCollider, MapSpawnPoint, MapCollision, MapMetadata, ColliderError, id_empty,
  position_invalid, rotation_invalid, box_size_invalid, unsupported_shape, SpawnError,
  spawn_id_empty, spawn_position_invalid, spawn_rotation_invalid, MapError, map_id_empty,
  map_id_mismatch, units_unsupported, rotation_unsupported, colliders_empty, invalid_collider,
  invalid_spawn_point,
}
use demo_server.Map.Mesh.{validate_map_mesh_collider}

abbrev pub is_text : String → String → Bool
is_text s t = ite (string_discrete s t) true false

abbrev pub is_empty_list : {A : Type 0} → List A → Bool
is_empty_list [] = true
is_empty_list (x ∷ xs) = false

module _ {F : Type 0} (fl : Float F) where
  open fl use {ratio, add, sub, mul, div, less, pi}

  unfoldable pub valid_raw_quaternion : Quaternion F → Bool
  unfolding is_finite
  valid_raw_quaternion q =
      is_finite fl q.x
      && is_finite fl q.y
      && is_finite fl q.z
      && is_finite fl q.w
      && less (ratio (pos 1) 1_000_000)
          (add (add (add (mul q.x q.x) (mul q.y q.y)) (mul q.z q.z)) (mul q.w q.w))

  unfoldable pub valid_box : Vector3 F → Bool
  unfolding vector_finite
  valid_box size =
      vector_finite fl size
      && not (at_most fl size.x (ratio (pos 0) 1))
      && not (at_most fl size.y (ratio (pos 0) 1))
      && not (at_most fl size.z (ratio (pos 0) 1))

  module _ (to_lower : String → String) where
    -- The switch on the shape.
    unfoldable pub check_shape : MapCollider F → Result ColliderError Unit
    unfolding valid_box validate_map_mesh_collider
    check_shape c =
        let shape = to_lower (trim_space c.shape) in
        if is_text shape "box"
        then (if valid_box c.size then ok tt else err box_size_invalid)
        else if is_text shape "mesh"
        then validate_map_mesh_collider fl c.vertices c.triangles
        else err unsupported_shape

    unfoldable pub validate_map_collider : MapCollider F → Result ColliderError Unit
    unfolding check_shape valid_raw_quaternion vector_finite
    validate_map_collider c =
        if is_empty (trim_space c.id)
        then err id_empty
        else if not (vector_finite fl c.position)
        then err position_invalid
        else if not (valid_raw_quaternion c.rotation)
        then err rotation_invalid
        else if c.is_trigger
        then ok tt
        else check_shape c

    unfoldable pub validate_map_spawn_point : MapSpawnPoint F → Result SpawnError Unit
    unfolding valid_raw_quaternion vector_finite
    validate_map_spawn_point p =
        if is_empty (trim_space p.id)
        then err spawn_id_empty
        else if not (vector_finite fl p.position)
        then err spawn_position_invalid
        else if not (valid_raw_quaternion p.rotation)
        then err spawn_rotation_invalid
        else ok tt

    abbrev pub collider_result :
        ℕ → Result ColliderError Unit → Result MapError Unit → Result MapError Unit
    collider_result i (ok u) rest = rest
    collider_result i (err e) rest = err (invalid_collider i e)

    abbrev pub spawn_result :
        ℕ → Result SpawnError Unit → Result MapError Unit → Result MapError Unit
    spawn_result i (ok u) rest = rest
    spawn_result i (err e) rest = err (invalid_spawn_point i e)

    -- The loop over the spawn points, the i-th first.
    unfoldable pub check_spawn_points : ℕ → List (MapSpawnPoint F) → Result MapError Unit
    unfolding validate_map_spawn_point
    check_spawn_points i [] = ok tt
    check_spawn_points i (p ∷ ps) =
        spawn_result i (validate_map_spawn_point p) (check_spawn_points (i + 1) ps)

    -- The loop over the colliders, the i-th first, and what follows it.
    unfoldable pub check_colliders :
        ℕ → List (MapCollider F) → Result MapError Unit → Result MapError Unit
    unfolding validate_map_collider
    check_colliders i [] rest = rest
    check_colliders i (c ∷ cs) rest =
        collider_result i (validate_map_collider c) (check_colliders (i + 1) cs rest)

    unfoldable pub validate_map_collision : MapCollision F → String → Result MapError Unit
    unfolding check_colliders check_spawn_points
    validate_map_collision m expected =
        if is_empty (trim_space m.map_id)
        then err map_id_empty
        else if not (is_empty expected) && not (is_text m.map_id expected)
        then err map_id_mismatch
        else if not (is_empty m.units) && not (is_text m.units "meter")
        then err units_unsupported
        else if not (is_empty m.rotation) && not (is_text m.rotation "quat_xyzw")
        then err rotation_unsupported
        else if is_empty_list m.colliders
        then err colliders_empty
        else check_colliders 0 m.colliders (check_spawn_points 0 m.spawn_points)

  -- What LoadMapCollisionMetadata answers of a map.
  unfoldable pub metadata_of : MapCollision F → MapMetadata
  metadata_of m = record {
    map_id = m.map_id;
    map_version = m.map_version;
    physics_hash = m.physics_hash;
    collider_count = length m.colliders;
    spawn_point_count = length m.spawn_points;
  }

  module _ (atan2 : F → F → F) where
    unfoldable pub quaternion_yaw : Quaternion F → F
    unfolding normalize_degrees
    quaternion_yaw q =
        let siny = mul (ratio (pos 2) 1) (add (mul q.w q.y) (mul q.x q.z)) in
        let cosy =
          sub (ratio (pos 1) 1) (mul (ratio (pos 2) 1) (add (mul q.y q.y) (mul q.z q.z))) in
        normalize_degrees fl (div (mul (atan2 siny cosy) (ratio (pos 180) 1)) pi)

    unfoldable pub to_logic_spawn_point : MapSpawnPoint F → SpawnPoint F
    unfolding quaternion_yaw
    to_logic_spawn_point p = record {
      id = p.id;
      position = p.position;
      yaw = quaternion_yaw p.rotation;
    }

    unfoldable pub to_logic_spawn_points : List (MapSpawnPoint F) → List (SpawnPoint F)
    unfolding to_logic_spawn_point
    to_logic_spawn_points ps = map to_logic_spawn_point ps
