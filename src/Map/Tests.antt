-- ===== src/Map/Tests.antt =====
-- A map of one box and one mesh, in whole numbers.
use demo_server.Prelude.{
  ℕ, String, true, false, some, [], ◌∷◌, ◌≡◌, refl, ite, ◌⊎◌, inl, inr, ◌<◌, sym, subst, arith,
}
use Prim.Native.String.{len}
use demo_server.Map.Path.{
  Files, IsFiles, Nearest, find_project_root, search_from, search_up, find_project_root-Nearest,
}
use demo_server.Prelude.Int.{pos}
use demo_server.Prelude.Actions.{ok, err}
use demo_server.Prelude.Text.{trim_space, string_discrete}
use demo_server.Room.Samples.{whole_numbers, corner}
use demo_server.Map.{Quaternion, MapCollider, MapCollision, invalid_collider, triangle_out_of_range}
use demo_server.Map.Check.{validate_map_collision}
use demo_server.Map.Sound.{MapTells, IsUsableMap, validate_map_collision-IsUsableMap}

abbrev upright : Quaternion ℕ
upright = record { x = 0; y = 0; z = 0; w = 9 }

abbrev crate : MapCollider ℕ
crate = record {
  id = "crate";
  shape = " box ";
  position = corner 1;
  rotation = upright;
  size = record { x = 1; y = 1; z = 1 };
  vertices = [];
  triangles = [];
  is_trigger = false;
}

abbrev ramp : MapCollider ℕ
ramp = record crate {
  shape = "mesh";
  vertices = 0 ∷ 0 ∷ 0 ∷ 9 ∷ 0 ∷ 0 ∷ 0 ∷ 0 ∷ 9 ∷ [];
  triangles = pos 0 ∷ pos 2 ∷ pos 1 ∷ [];
}

abbrev arena : MapCollision ℕ
arena = record {
  map_id = "arena";
  map_version = pos 1;
  physics_hash = "h";
  units = "meter";
  rotation = "";
  colliders = crate ∷ ramp ∷ [];
  spawn_points = record { id = "a"; position = corner 2; rotation = upright } ∷ [];
}

abbrev same_letters : String → String
same_letters s = s

-- A fourth vertex is not there.
past_the_end :
    validate_map_collision whole_numbers same_letters
      (record arena { colliders = record ramp { triangles = pos 0 ∷ pos 3 ∷ pos 1 ∷ [] } ∷ [] })
      ""
    ≡ err (invalid_collider 0 (triangle_out_of_range 0))
unfolding validate_map_collision trim_space string_discrete
past_the_end = refl

validate_map_collision-IsUsableMap_example :
    MapTells whole_numbers same_letters
      (IsUsableMap whole_numbers same_letters arena)
      (validate_map_collision whole_numbers same_letters arena "arena")
validate_map_collision-IsUsableMap_example =
    validate_map_collision-IsUsableMap whole_numbers same_letters arena "arena"

-- Three directories, with a go.mod in the one in the middle.
unfoldable parent : String → String
parent p = ite (string_discrete p "/srv/app") "/srv" (ite (string_discrete p "/srv") "/" p)

abbrev disk : Files
disk = record {
  getwd = some "/srv/app";
  exists = λ p. ite (string_discrete p "/srv/go.mod") true false;
  dir = parent;
  join = λ p q. ite (string_discrete p "/srv") "/srv/go.mod" q;
  is_abs = λ p. true;
  clean = λ p. p;
}

shorter_by :
    (p : String) (d : Dec (p ≡ "/srv/app")) (e : Dec (p ≡ "/srv"))
    → let q = ite d "/srv" (ite e "/" p) in (q ≡ p) ⊎ (len q < len p)
shorter_by p (yes a) e =
    let four : 4 < 8 = omega arith in inr (subst (λ x. len "/srv" < len x) (sym a) four)
shorter_by p (no b) (yes a) =
    let one : 1 < 4 = omega arith in inr (subst (λ x. len "/" < len x) (sym a) one)
shorter_by p (no b) (no c) = inl refl

disk-IsFiles : IsFiles disk
unfolding parent
disk-IsFiles = record {
  getwd_abs = λ w e. refl;
  dir_abs = λ p e. refl;
  dir_shorter = λ p e. shorter_by p (string_discrete p "/srv/app") (string_discrete p "/srv");
}

found : find_project_root disk ≡ ok "/srv"
unfolding find_project_root search_from search_up parent string_discrete
found = refl

find_project_root-Nearest_example : Nearest disk "/srv/app" (find_project_root disk)
find_project_root-Nearest_example = find_project_root-Nearest disk disk-IsFiles "/srv/app" refl
