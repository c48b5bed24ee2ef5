-- ===== src/Map/Sound.antt =====
-- roomserver/physx/map_collision.go: the check of a map, as a whole.
use demo_server.Prelude.{
  ℕ, ◌+◌, String, Bool, true, false, not, ◌&&◌, List, [], ◌∷◌, ◌≡◌, ◌≢◌, ◌⊎◌, inl, inr, refl, arith,
  All, if◌then◌else◌,
}
use demo_server.Prelude.Text.{is_empty, trim_space}
use demo_server.Prelude.Actions.{Result, ok, err}
use demo_server.Float.{Float}
use demo_server.World.Rays.{vector_finite}
use demo_server.Map.{
  MapCollider, MapSpawnPoint, MapCollision, ColliderError, index_panic, id_empty, position_invalid,
  rotation_invalid, box_size_invalid, unsupported_shape, SpawnError, MapError, map_id_empty,
  map_id_mismatch, units_unsupported, rotation_unsupported, colliders_empty, invalid_collider,
}
use demo_server.Map.Mesh.{validate_map_mesh_collider}
use demo_server.Map.Check.{
  is_text, is_empty_list, valid_raw_quaternion, valid_box, check_shape, validate_map_collider,
  validate_map_spawn_point, collider_result, spawn_result, check_spawn_points, check_colliders,
  validate_map_collision,
}
use demo_server.Map.Valid.{Tells, IsMesh, IsMesh-Tells}

module _ {F : Type 0} (fl : Float F) (to_lower : String → String) where
  -- A box with sides, or a mesh as it should be, by its shape.
  abbrev pub HasShape : MapCollider F → Type 0
  HasShape c =
      ((is_text (to_lower (trim_space c.shape)) "box" ≡ true) × (valid_box fl c.size ≡ true))
      ⊎ ((is_text (to_lower (trim_space c.shape)) "mesh" ≡ true) × IsMesh fl c.vertices c.triangles)

  -- A collider with an id and finite coordinates that is a trigger or has its shape.
  abbrev pub IsCollider : MapCollider F → Type 0
  IsCollider c =
      (is_empty (trim_space c.id) ≡ false)
      × (vector_finite fl c.position ≡ true)
      × (valid_raw_quaternion fl c.rotation ≡ true)
      × ((c.is_trigger ≡ true) ⊎ HasShape c)

  abbrev pub IsSpawnPoint : MapSpawnPoint F → Type 0
  IsSpawnPoint p =
      (is_empty (trim_space p.id) ≡ false)
      × (vector_finite fl p.position ≡ true)
      × (valid_raw_quaternion fl p.rotation ≡ true)

  shape_Tells : (c : MapCollider F) → Tells fl c.vertices (HasShape c) (check_shape fl to_lower c)
  unfolding check_shape
  shape_Tells c =
      go (is_text (to_lower (trim_space c.shape)) "box")
        (is_text (to_lower (trim_space c.shape)) "mesh") (valid_box fl c.size) refl refl refl
        (validate_map_mesh_collider fl c.vertices c.triangles)
        (IsMesh-Tells fl c.vertices c.triangles)
    where
      go :
          (box mesh sides : Bool)
          → is_text (to_lower (trim_space c.shape)) "box" ≡ box
          → is_text (to_lower (trim_space c.shape)) "mesh" ≡ mesh
          → valid_box fl c.size ≡ sides
          → (r : Result ColliderError Unit)
          → Tells fl c.vertices (IsMesh fl c.vertices c.triangles) r
          → Tells fl c.vertices (HasShape c) (
              if box
              then (if sides then ok tt else err box_size_invalid)
              else if mesh
              then r
              else err unsupported_shape)
      go true mesh true p q s r h = inl (p, s)
      go true mesh false p q s r h = λ x. ground (arith, x)
      go false true sides p q s (ok u) h = inr (q, h)
      go false true sides p q s (err e) h = h
      go false false sides p q s r h = λ x. ground (arith, x)

  IsCollider-Tells :
      (c : MapCollider F) → Tells fl c.vertices (IsCollider c) (validate_map_collider fl to_lower c)
  unfolding validate_map_collider
  IsCollider-Tells c =
      go (is_empty (trim_space c.id)) (vector_finite fl c.position)
        (valid_raw_quaternion fl c.rotation) c.is_trigger refl refl refl refl
        (check_shape fl to_lower c) (shape_Tells c)
    where
      go :
          (a b q t : Bool)
          → is_empty (trim_space c.id) ≡ a
          → vector_finite fl c.position ≡ b
          → valid_raw_quaternion fl c.rotation ≡ q
          → c.is_trigger ≡ t
          → (r : Result ColliderError Unit) → Tells fl c.vertices (HasShape c) r
          → Tells fl c.vertices (IsCollider c) (
              if a
              then err id_empty
              else if not b
              then err position_invalid
              else if not q
              then err rotation_invalid
              else if t
              then ok tt
              else r)
      go true b q t w x y z r h = λ e. ground (arith, e)
      go false false q t w x y z r h = λ e. ground (arith, e)
      go false true false t w x y z r h = λ e. ground (arith, e)
      go false true true true w x y z r h = (w, x, y, inl z)
      go false true true false w x y z (ok u) h = (w, x, y, inr h)
      go false true true false w x y z (err e) h = h

  spawn_point_lem :
      (p : MapSpawnPoint F) → validate_map_spawn_point fl to_lower p ≡ ok tt → IsSpawnPoint p
  unfolding validate_map_spawn_point
  spawn_point_lem p e = ground (arith, e)

  -- What an answer of the check of a map tells: no index was outside of a slice, and with no error
  -- P holds.
  abbrev pub MapTells : Type 0 → Result MapError Unit → Type 0
  MapTells P (ok u) = P
  MapTells P (err e) = (i : ℕ) → e ≢ invalid_collider i index_panic

  spawn_points_MapTells :
      (i : ℕ) (ps : List (MapSpawnPoint F))
      → MapTells (All IsSpawnPoint ps) (check_spawn_points fl to_lower i ps)
  unfolding check_spawn_points
  spawn_points_MapTells i [] = tt
  spawn_points_MapTells i (p ∷ ps) =
      go (validate_map_spawn_point fl to_lower p) refl (check_spawn_points fl to_lower (i + 1) ps)
        (spawn_points_MapTells (i + 1) ps)
    where
      go :
          (v : Result SpawnError Unit)
          → validate_map_spawn_point fl to_lower p ≡ v
          → (rest : Result MapError Unit) → MapTells (All IsSpawnPoint ps) rest
          → MapTells (All IsSpawnPoint (p ∷ ps)) (spawn_result fl to_lower i v rest)
      go (ok u) e (ok w) h = (spawn_point_lem p e, h)
      go (ok u) e (err x) h = h
      go (err x) e rest h = λ j q. ground (arith, q)

  colliders_MapTells :
      (P : Type 0) (i : ℕ) (cs : List (MapCollider F)) (rest : Result MapError Unit)
      → MapTells P rest
      → MapTells (All IsCollider cs × P) (check_colliders fl to_lower i cs rest)
  unfolding check_colliders
  colliders_MapTells P i [] (ok u) h = (tt, h)
  colliders_MapTells P i [] (err e) h = h
  colliders_MapTells P i (c ∷ cs) rest h =
      go (validate_map_collider fl to_lower c) (IsCollider-Tells c)
        (check_colliders fl to_lower (i + 1) cs rest) (colliders_MapTells P (i + 1) cs rest h)
    where
      go :
          (v : Result ColliderError Unit)
          → Tells fl c.vertices (IsCollider c) v
          → (more : Result MapError Unit) → MapTells (All IsCollider cs × P) more
          → MapTells (All IsCollider (c ∷ cs) × P) (collider_result fl to_lower i v more)
      go (ok u) t (ok w) m = ((t, m.0), m.1)
      go (ok u) t (err x) m = m
      go (err x) t more m = λ j q. t (ground (arith, q))

  -- The map has colliders, and every collider and spawn point is as it should be.
  abbrev pub IsUsableMap : MapCollision F → Type 0
  IsUsableMap m =
      (All IsCollider m.colliders × All IsSpawnPoint m.spawn_points) × (m.colliders ≢ [])

  -- The check of a map never reads a slice outside of its range, and a map that passes has
  -- colliders, each a trigger, a box with sides or a mesh with finite vertices and triangles of
  -- three different vertices that are there, with finite coordinates in each collider and spawn
  -- point.
  pub validate_map_collision-IsUsableMap :
      (m : MapCollision F) (expected : String)
      → MapTells (IsUsableMap m) (validate_map_collision fl to_lower m expected)
  unfolding validate_map_collision
  validate_map_collision-IsUsableMap m expected =
      go (is_empty (trim_space m.map_id))
        (not (is_empty expected) && not (is_text m.map_id expected))
        (not (is_empty m.units) && not (is_text m.units "meter"))
        (not (is_empty m.rotation) && not (is_text m.rotation "quat_xyzw")) m.colliders
        (check_spawn_points fl to_lower 0 m.spawn_points) (spawn_points_MapTells 0 m.spawn_points)
    where
      go :
          (a b c d : Bool) (cs : List (MapCollider F)) (r : Result MapError Unit)
          → MapTells (All IsSpawnPoint m.spawn_points) r
          → MapTells ((All IsCollider cs × All IsSpawnPoint m.spawn_points) × (cs ≢ [])) (
              if a
              then err map_id_empty
              else if b
              then err map_id_mismatch
              else if c
              then err units_unsupported
              else if d
              then err rotation_unsupported
              else if is_empty_list cs
              then err colliders_empty
              else check_colliders fl to_lower 0 cs r)
      go true b c d cs r h = λ i q. ground (arith, q)
      go false true c d cs r h = λ i q. ground (arith, q)
      go false false true d cs r h = λ i q. ground (arith, q)
      go false false false true cs r h = λ i q. ground (arith, q)
      go false false false false [] r h = λ i q. ground (arith, q)
      go false false false false (x ∷ cs) r h =
          last (check_colliders fl to_lower 0 (x ∷ cs) r)
            (colliders_MapTells (All IsSpawnPoint m.spawn_points) 0 (x ∷ cs) r h)
        where
          last :
              (v : Result MapError Unit)
              → MapTells (All IsCollider (x ∷ cs) × All IsSpawnPoint m.spawn_points) v
              → MapTells
                  ((All IsCollider (x ∷ cs) × All IsSpawnPoint m.spawn_points) × ((x ∷ cs) ≢ []))
                  v
          last (ok u) t = (t, λ q. ground (arith, q))
          last (err e) t = t
