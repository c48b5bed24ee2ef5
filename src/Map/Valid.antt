-- ===== src/Map/Valid.antt =====
-- roomserver/physx/map_collision.go: what the check of a map guarantees.
use demo_server.Prelude.{
  ℕ, zero, suc, ◌+◌, ◌*◌, ◌/◌, ◌%◌, ◌<◌, Bool, true, false, not, ◌||◌, some, List, [], ◌∷◌, length,
  ltb, ◌==◌, ◌≡◌, ◌≢◌, refl, arith, All, if◌then◌else◌,
}
use demo_server.Prelude.Int.{ℤ, pos, negsuc, leb_ℤ, ltb_ℤ}
use demo_server.Prelude.Actions.{Result, ok, err}
use demo_server.Float.{Float}
use demo_server.Room.State.{Vector3}
use demo_server.Room.Movement.{is_finite}
use demo_server.Player.State.{eq_ℤ}
use demo_server.Map.{
  ColliderError, mesh_vertices_invalid, mesh_triangles_invalid, index_panic, mesh_vertex_invalid,
  triangle_out_of_range, triangle_degenerate,
}
use demo_server.Map.Mesh.{
  get_elem?, mesh_vertex, out_of_range, mesh_triangle_area_squared, area_result, check_triangle,
  and_then, check_triangles, check_vertices, check_indices, validate_map_mesh_collider,
}

get_elem?-lt :
    {A : Type 0} (xs : List A) (i : ℕ) → i < length xs → (x : A) × (get_elem? xs i ≡ some x)
get_elem?-lt [] i h = absurd (omega (arith, h))
get_elem?-lt (x ∷ xs) zero h = (x, refl)
get_elem?-lt (x ∷ xs) (suc i) h = get_elem?-lt xs i (omega (arith, h))

module _ {F : Type 0} (vertices : List F) where
  -- The vertex is there.
  abbrev pub Reads : ℤ → Type 0
  Reads a = (v : Vector3 F) × (mesh_vertex vertices a ≡ some v)

  -- Every triangle has three different vertices that are there, and no index is left over.
  abbrev pub AreTriangles : List ℤ → Type 0
  AreTriangles [] = Unit
  AreTriangles (a ∷ []) = ⊥
  AreTriangles (a ∷ b ∷ []) = ⊥
  AreTriangles (a ∷ b ∷ c ∷ rest) =
      (Reads a × Reads b × Reads c)
      × (eq_ℤ a b ≡ false)
      × (eq_ℤ b c ≡ false)
      × (eq_ℤ a c ≡ false)
      × AreTriangles rest

  Reads-lt : (n : ℕ) → n < length vertices / 3 → Reads (pos n)
  unfolding mesh_vertex
  Reads-lt n h =
      let (x, ex) = get_elem?-lt vertices (n * 3) (omega (arith, h)) in
      let (y, ey) = get_elem?-lt vertices (n * 3 + 1) (omega (arith, h)) in
      let (z, ez) = get_elem?-lt vertices (n * 3 + 2) (omega (arith, h)) in
      (record { x = x; y = y; z = z }, rw (ex, ey, ez) refl)

  index_Reads :
      (a : ℤ) → ltb_ℤ a (pos 0) ≡ false → leb_ℤ (pos (length vertices / 3)) a ≡ false → Reads a
  index_Reads (pos n) h k = Reads-lt n (ground (arith, k))
  index_Reads (negsuc n) h k = absurd (ground (arith, h))

  range_Reads :
      (a b c : ℤ) → out_of_range (length vertices / 3) a b c ≡ false → Reads a × Reads b × Reads c
  unfolding out_of_range
  range_Reads a b c h = (
    index_Reads a (ground (arith, h)) (ground (arith, h)),
    index_Reads b (ground (arith, h)) (ground (arith, h)),
    index_Reads c (ground (arith, h)) (ground (arith, h)),
  )

module _ {F : Type 0} (fl : Float F) (vertices : List F) where
  -- What an answer of the check of a mesh tells: no index was outside of a slice, and with no error
  -- the mesh is what it should be.
  abbrev pub Tells : Type 0 → Result ColliderError Unit → Type 0
  Tells P (ok u) = P
  Tells P (err e) = e ≢ index_panic

  Tells-if :
      (b : Bool) (e : ColliderError) → e ≢ index_panic → Tells Unit (if b then err e else ok tt)
  Tells-if true e h = h
  Tells-if false e h = tt

  area_Tells :
      (i : ℕ) (a b c : ℤ)
      → Reads vertices a × Reads vertices b × Reads vertices c
      → Tells Unit (area_result fl i (mesh_triangle_area_squared fl vertices a b c))
  unfolding mesh_triangle_area_squared
  area_Tells i a b c ((u, p), (v, q), (w, r)) =
      rw (p, q, r) (Tells-if _ (triangle_degenerate i) (λ x. ground (arith, x)))

  abbrev Triangle : ℤ → ℤ → ℤ → Type 0
  Triangle a b c =
      (Reads vertices a × Reads vertices b × Reads vertices c)
      × (eq_ℤ a b ≡ false)
      × (eq_ℤ b c ≡ false)
      × (eq_ℤ a c ≡ false)

  weaker : (P : Type 0) (r : Result ColliderError Unit) → P → Tells Unit r → Tells P r
  weaker P (ok u) p h = p
  weaker P (err e) p h = h

  Triangle-Tells : (i : ℕ) (a b c : ℤ) → Tells (Triangle a b c) (check_triangle fl vertices i a b c)
  unfolding check_triangle
  Triangle-Tells i a b c =
      go (out_of_range (length vertices / 3) a b c) (eq_ℤ a b || eq_ℤ b c || eq_ℤ a c) refl refl
    where
      go :
          (o s : Bool)
          → out_of_range (length vertices / 3) a b c ≡ o
          → (eq_ℤ a b || eq_ℤ b c || eq_ℤ a c) ≡ s
          → Tells (Triangle a b c) (
              if o
              then err (triangle_out_of_range i)
              else if s
              then err (triangle_degenerate i)
              else area_result fl i (mesh_triangle_area_squared fl vertices a b c))
      go true s p q = λ x. ground (arith, x)
      go false true p q = λ x. ground (arith, x)
      go false false p q =
          let reads = range_Reads vertices a b c p in
          weaker (Triangle a b c) (area_result fl i (mesh_triangle_area_squared fl vertices a b c))
            (reads, ground (arith, q), ground (arith, q), ground (arith, q))
            (area_Tells i a b c reads)

  and_then-Tells :
      (P Q R : Type 0) (r rest : Result ColliderError Unit)
      → (P → Q → R)
      → Tells P r
      → Tells Q rest
      → Tells R (and_then fl r rest)
  and_then-Tells P Q R (ok u) (ok w) f p q = f p q
  and_then-Tells P Q R (ok u) (err e) f p q = q
  and_then-Tells P Q R (err e) rest f p q = p

  triangles_Tells :
      (i : ℕ) (ts : List ℤ)
      → length ts % 3 ≡ 0
      → Tells (AreTriangles vertices ts) (check_triangles fl vertices i ts)
  unfolding check_triangles
  triangles_Tells i [] h = tt
  triangles_Tells i (a ∷ []) h = absurd (omega (arith, h))
  triangles_Tells i (a ∷ b ∷ []) h = absurd (omega (arith, h))
  triangles_Tells i (a ∷ b ∷ c ∷ rest) h =
      and_then-Tells (Triangle a b c) (AreTriangles vertices rest)
        (AreTriangles vertices (a ∷ b ∷ c ∷ rest)) (check_triangle fl vertices i a b c)
        (check_triangles fl vertices (i + 1) rest) (λ t r. (t.0, t.1, t.2, t.3, r))
        (Triangle-Tells i a b c) (triangles_Tells (i + 1) rest (omega (arith, h)))

  vertices_Tells :
      (i : ℕ) (vs : List F) → Tells (All (λ v. is_finite fl v ≡ true) vs) (check_vertices fl i vs)
  unfolding check_vertices
  vertices_Tells i [] = tt
  vertices_Tells i (v ∷ vs) =
      go (is_finite fl v) refl (check_vertices fl (i + 1) vs) (vertices_Tells (i + 1) vs)
    where
      go :
          (b : Bool)
          → is_finite fl v ≡ b
          → (rest : Result ColliderError Unit) → Tells (All (λ v. is_finite fl v ≡ true) vs) rest
          → Tells
              (All (λ v. is_finite fl v ≡ true) (v ∷ vs))
              (if not b then err (mesh_vertex_invalid i) else rest)
      go true e (ok u) h = (e, h)
      go true e (err x) h = h
      go false e rest h = λ x. ground (arith, x)

  -- A mesh as it should be: finite vertices, and triangles of three different ones.
  abbrev pub IsMesh : List ℤ → Type 0
  IsMesh triangles = All (λ v. is_finite fl v ≡ true) vertices × AreTriangles vertices triangles

  indices_Tells : (ts : List ℤ) → Tells (AreTriangles vertices ts) (check_indices fl vertices ts)
  unfolding check_indices
  indices_Tells ts = go (ltb (length ts) 3) (length ts % 3 == 0) refl
    where
      go :
          (b c : Bool)
          → (length ts % 3 == 0) ≡ c
          → Tells
              (AreTriangles vertices ts)
              (if b || not c then err mesh_triangles_invalid else check_triangles fl vertices 0 ts)
      go true c e = λ x. ground (arith, x)
      go false false e = λ x. ground (arith, x)
      go false true e = triangles_Tells 0 ts (ground (arith, e))

  pub IsMesh-Tells : (ts : List ℤ) → Tells (IsMesh ts) (validate_map_mesh_collider fl vertices ts)
  unfolding validate_map_mesh_collider
  IsMesh-Tells ts = go (ltb (length vertices) 9 || not (length vertices % 3 == 0))
    where
      go :
          (b : Bool)
          → Tells (IsMesh ts) (
              if b
              then err mesh_vertices_invalid
              else and_then fl (check_vertices fl 0 vertices) (check_indices fl vertices ts))
      go true = λ x. ground (arith, x)
      go false =
          and_then-Tells (All (λ v. is_finite fl v ≡ true) vertices) (AreTriangles vertices ts)
            (IsMesh ts) (check_vertices fl 0 vertices) (check_indices fl vertices ts)
            (λ p q. (p, q)) (vertices_Tells 0 vertices) (indices_Tells ts)
