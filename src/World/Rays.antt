-- ===== src/World/Rays.antt =====
-- roomserver/logic/physics.go: the ray tests of the simple physics world.
use demo_server.Prelude.{
  ℕ, Bool, true, false, not, ◌&&◌, ◌||◌, Option, none, some, List, [], ◌∷◌, ◌==◌, if◌then◌else◌,
}
use demo_server.Prelude.Int.{pos}
use demo_server.Float.{Float}
use demo_server.Room.State.{Vector3, RaycastRequest, PhysicsError, world_closed, invalid_request}
use demo_server.Room.Vector.{zero_vector, dot, vector_length, sub_vector}
use demo_server.Room.Movement.{is_finite}
use demo_server.World.{SimpleWorld, RayHit, zero_float, capsule_radius, capsule_half_height}

module _ {F : Type 0} (fl : Float F) where
  open fl use {ratio, add, sub, mul, div, neg, less, same, sqrt}

  -- a <= b, which is false when one is not a number
  abbrev pub at_most : F → F → Bool
  at_most a b = less a b || same a b

  unfoldable pub vector_finite : Vector3 F → Bool
  unfolding is_finite
  vector_finite v = is_finite fl v.x && is_finite fl v.y && is_finite fl v.z

  -- The unit vector, or nothing for a vector without length.
  unfoldable pub normalized_vector : Vector3 F → Option (Vector3 F)
  unfolding vector_length
  normalized_vector v =
      let length = vector_length fl v in
      if at_most length (zero_float fl)
      then none
      else some (record { x = div v.x length; y = div v.y length; z = div v.z length })

  unfoldable pub valid_raycast_request : RaycastRequest F → Bool
  unfolding vector_finite vector_length is_finite
  valid_raycast_request q =
      vector_finite q.origin
      && vector_finite q.direction
      && less (zero_float fl) (vector_length fl q.direction)
      && is_finite fl q.max_distance
      && less (zero_float fl) q.max_distance

  unfoldable pub ray_point : Vector3 F → Vector3 F → F → Vector3 F
  ray_point origin direction distance = record {
    x = add origin.x (mul direction.x distance);
    y = add origin.y (mul direction.y distance);
    z = add origin.z (mul direction.z distance);
  }

  -- The nearer crossing that is not behind the origin, within the distance.
  unfoldable pub ray_sphere_distance : Vector3 F → Vector3 F → Vector3 F → F → F → Option F
  unfolding sub_vector dot
  ray_sphere_distance origin direction center radius max_distance =
      if at_most radius (zero_float fl) || at_most max_distance (zero_float fl)
      then none
      else let oc = sub_vector fl origin center in
        let b = dot fl oc direction in
        let c = sub (dot fl oc oc) (mul radius radius) in
        let discriminant = sub (mul b b) c in
        if less discriminant (zero_float fl)
        then none
        else let root = sqrt discriminant in
          let near = sub (neg b) root in
          let distance = if less near (zero_float fl) then add (neg b) root else near in
          if less distance (zero_float fl) || less max_distance distance
          then none
          else some distance

  -- The middle of a player's capsule.
  unfoldable pub body_center : Vector3 F → Vector3 F
  body_center position = record position { y = add position.y (capsule_half_height fl) }

  -- How far along the ray a player is hit.
  unfoldable pub player_distance : RaycastRequest F → Vector3 F → Vector3 F → Option F
  unfolding ray_sphere_distance body_center
  player_distance q direction position =
      ray_sphere_distance q.origin direction (body_center position) (capsule_radius fl)
        q.max_distance

  abbrev pub or_zero : Option (Vector3 F) → Vector3 F
  unfolding zero_vector
  or_zero none = zero_vector fl
  or_zero (some v) = v

  unfoldable pub hit_at : RaycastRequest F → Vector3 F → ℕ → Vector3 F → F → RayHit F
  unfolding ray_point normalized_vector sub_vector body_center zero_vector or_zero
  hit_at q direction player_id position distance =
      let point = ray_point q.origin direction distance in
      record {
        hit = true;
        target_id = player_id;
        point = point;
        normal = or_zero (normalized_vector (sub_vector fl point (body_center position)));
        distance = distance;
      }

  -- One turn of the loop of Raycast, for the distance of this player, if it is hit.
  abbrev pub closer :
      RaycastRequest F → Vector3 F → ℕ → Vector3 F → Option F → F × RayHit F → F × RayHit F
  unfolding hit_at
  closer q direction player_id position none best = best
  closer q direction player_id position (some distance) best =
      if at_most best.0 distance
      then best
      else (distance, hit_at q direction player_id position distance)

  unfoldable pub ray_turn :
      RaycastRequest F → Vector3 F → ℕ × Vector3 F → F × RayHit F → F × RayHit F
  unfolding player_distance closer
  ray_turn q direction (player_id, position) best =
      if player_id == q.ignore_player_id
      then best
      else closer q direction player_id position (player_distance q direction position) best

  unfoldable pub closest_hit :
      RaycastRequest F → Vector3 F → List (ℕ × Vector3 F) → F × RayHit F → F × RayHit F
  unfolding ray_turn
  closest_hit q direction [] best = best
  closest_hit q direction (p ∷ ps) best = closest_hit q direction ps (ray_turn q direction p best)

  abbrev pub no_hit : RayHit F
  unfolding zero_vector
  no_hit = record {
    hit = false;
    target_id = 0;
    point = zero_vector fl;
    normal = zero_vector fl;
    distance = (zero_float fl);
  }

  -- Raycast once the direction is a unit vector.
  abbrev pub cast :
      RaycastRequest F
      → Option (Vector3 F)
      → SimpleWorld F
      → Option (RayHit F) × Option PhysicsError
  unfolding closest_hit no_hit
  cast q none w = (none, some invalid_request)
  cast q (some direction) w = if w.closed then (none, some world_closed) else (
    some ((closest_hit q direction w.players (add q.max_distance (ratio (pos 1) 1), no_hit)).1),
    none,
  )

  unfoldable pub raycast_simple :
      RaycastRequest F → SimpleWorld F → Option (RayHit F) × Option PhysicsError
  unfolding valid_raycast_request normalized_vector cast
  raycast_simple q w =
      if not (valid_raycast_request q)
      then (none, some invalid_request)
      else cast q (normalized_vector q.direction) w

  -- BatchRaycast: the first error ends it.
  abbrev pub and_hits :
      Option (RayHit F) × Option PhysicsError
      → Option (List (RayHit F)) × Option PhysicsError
      → Option (List (RayHit F)) × Option PhysicsError
  and_hits (some h, e) (some hs, e') = (some (h ∷ hs), none)
  and_hits (some h, e) (none, e') = (none, e')
  and_hits (none, e) rest = (none, e)

  unfoldable pub batch_raycast :
      List (RaycastRequest F) → SimpleWorld F → Option (List (RayHit F)) × Option PhysicsError
  unfolding raycast_simple
  batch_raycast [] w = (some [], none)
  batch_raycast (q ∷ qs) w = and_hits (raycast_simple q w) (batch_raycast qs w)
