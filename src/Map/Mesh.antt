-- ===== src/Map/Mesh.antt =====
-- roomserver/physx/map_collision.go: the check of a mesh, whose indices read the slice of vertices.
use demo_server.Prelude.{
  ℕ, zero, suc, ◌+◌, ◌*◌, ◌/◌, ◌%◌, Bool, not, ◌||◌, Option, none, some, List, [], ◌∷◌, length, ltb,
  ◌==◌, if◌then◌else◌,
}
use demo_server.Prelude.Int.{ℤ, pos, negsuc, leb_ℤ, ltb_ℤ}
use demo_server.Prelude.Actions.{Result, ok, err}
use demo_server.Float.{Float}
use demo_server.Room.State.{Vector3}
use demo_server.Room.Movement.{is_finite}
use demo_server.Player.State.{eq_ℤ}
use demo_server.World.Rays.{at_most}
use demo_server.Map.{
  ColliderError, mesh_vertices_invalid, mesh_triangles_invalid, index_panic, mesh_vertex_invalid,
  triangle_out_of_range, triangle_degenerate,
}

-- xs[i], or nothing where the index is out of range.
abbrev pub get_elem? : {A : Type 0} → List A → ℕ → Option A
get_elem? [] i = none
get_elem? (x ∷ xs) zero = some x
get_elem? (x ∷ xs) (suc i) = get_elem? xs i

abbrev pub vertex_from : {F : Type 0} → Option F → Option F → Option F → Option (Vector3 F)
vertex_from (some x) (some y) (some z) = some (record { x = x; y = y; z = z })
vertex_from none y z = none
vertex_from (some x) none z = none
vertex_from (some x) (some y) none = none

-- meshVertex: the three numbers of a vertex.
unfoldable pub mesh_vertex : {F : Type 0} → List F → ℤ → Option (Vector3 F)
mesh_vertex vertices (negsuc n) = none
mesh_vertex vertices (pos n) =
    vertex_from (get_elem? vertices (n * 3)) (get_elem? vertices (n * 3 + 1))
      (get_elem? vertices (n * 3 + 2))

-- The bounds test of one triangle.
unfoldable pub out_of_range : ℕ → ℤ → ℤ → ℤ → Bool
out_of_range count a b c =
    ltb_ℤ a (pos 0)
    || ltb_ℤ b (pos 0)
    || ltb_ℤ c (pos 0)
    || leb_ℤ (pos count) a
    || leb_ℤ (pos count) b
    || leb_ℤ (pos count) c

module _ {F : Type 0} (fl : Float F) where
  open fl use {ratio, add, sub, mul}

  -- The squared length of the cross product of two sides.
  unfoldable pub cross_squared : Vector3 F → Vector3 F → Vector3 F → F
  cross_squared a b c =
      let abx = sub b.x a.x in
      let aby = sub b.y a.y in
      let abz = sub b.z a.z in
      let acx = sub c.x a.x in
      let acy = sub c.y a.y in
      let acz = sub c.z a.z in
      let cross_x = sub (mul aby acz) (mul abz acy) in
      let cross_y = sub (mul abz acx) (mul abx acz) in
      let cross_z = sub (mul abx acy) (mul aby acx) in
      add (add (mul cross_x cross_x) (mul cross_y cross_y)) (mul cross_z cross_z)

  abbrev pub area_from : Option (Vector3 F) → Option (Vector3 F) → Option (Vector3 F) → Option F
  unfolding cross_squared
  area_from (some a) (some b) (some c) = some (cross_squared a b c)
  area_from none b c = none
  area_from (some a) none c = none
  area_from (some a) (some b) none = none

  -- meshTriangleAreaSquared, or nothing where a vertex is not there.
  unfoldable pub mesh_triangle_area_squared : List F → ℤ → ℤ → ℤ → Option F
  unfolding mesh_vertex area_from
  mesh_triangle_area_squared vertices a b c =
      area_from (mesh_vertex vertices a) (mesh_vertex vertices b) (mesh_vertex vertices c)

  -- The area against 1e-12.
  abbrev pub area_result : ℕ → Option F → Result ColliderError Unit
  area_result i none = err index_panic
  area_result i (some area) =
      if at_most fl area (ratio (pos 1) 1_000_000_000_000)
      then err (triangle_degenerate i)
      else ok tt

  unfoldable pub check_triangle : List F → ℕ → ℤ → ℤ → ℤ → Result ColliderError Unit
  unfolding out_of_range mesh_triangle_area_squared
  check_triangle vertices i a b c =
      if out_of_range (length vertices / 3) a b c
      then err (triangle_out_of_range i)
      else if eq_ℤ a b || eq_ℤ b c || eq_ℤ a c
      then err (triangle_degenerate i)
      else area_result i (mesh_triangle_area_squared vertices a b c)

  abbrev pub and_then :
      Result ColliderError Unit → Result ColliderError Unit → Result ColliderError Unit
  and_then (ok u) rest = rest
  and_then (err e) rest = err e

  -- The loop over the triangles, the i-th first. Its slice has no one or two indices left over.
  unfoldable pub check_triangles : List F → ℕ → List ℤ → Result ColliderError Unit
  unfolding check_triangle
  check_triangles vertices i [] = ok tt
  check_triangles vertices i (a ∷ []) = err index_panic
  check_triangles vertices i (a ∷ b ∷ []) = err index_panic
  check_triangles vertices i (a ∷ b ∷ c ∷ rest) =
      and_then (check_triangle vertices i a b c) (check_triangles vertices (i + 1) rest)

  -- The loop over the numbers of the vertices, the i-th first.
  unfoldable pub check_vertices : ℕ → List F → Result ColliderError Unit
  unfolding is_finite
  check_vertices i [] = ok tt
  check_vertices i (v ∷ vs) =
      let rest = check_vertices (i + 1) vs in
      if not (is_finite fl v) then err (mesh_vertex_invalid i) else rest

  -- validateMapMeshCollider after the vertices.
  unfoldable pub check_indices : List F → List ℤ → Result ColliderError Unit
  unfolding check_triangles
  check_indices vertices triangles =
      if ltb (length triangles) 3 || not (length triangles % 3 == 0)
      then err mesh_triangles_invalid
      else check_triangles vertices 0 triangles

  unfoldable pub validate_map_mesh_collider : List F → List ℤ → Result ColliderError Unit
  unfolding check_vertices check_indices
  validate_map_mesh_collider vertices triangles =
      if ltb (length vertices) 9 || not (length vertices % 3 == 0)
      then err mesh_vertices_invalid
      else and_then (check_vertices 0 vertices) (check_indices vertices triangles)
