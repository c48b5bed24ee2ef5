-- ===== src/Map/Load.antt =====
-- roomserver/physx/map_collision.go: loadMapCollision and its metadata. Reading a file and the
-- decoding of JSON are arguments.
use demo_server.Prelude.{ℕ, String, Option, none, some, List}
use demo_server.Prelude.Text.{trim_space}
use demo_server.Prelude.Actions.{Result, ok, err}
use demo_server.Float.{Float}
use demo_server.Map.{MapCollision, MapError, MapMetadata}
use demo_server.Map.Check.{validate_map_collision, metadata_of}
use demo_server.Map.Path.{Files, PathError, resolve_project_path}

pub data LoadError : Type 0 where
  path_error : PathError → LoadError
  read_failed parse_failed : LoadError
  map_error : MapError → LoadError

module _ {F : Type 0} (fl : Float F) (to_lower : String → String) (fs : Files)
    (read_file : String → Option (List ℕ)) (decode : List ℕ → Option (MapCollision F)) where
  abbrev pub checked : MapCollision F → Result MapError Unit → Result LoadError (MapCollision F)
  checked m (ok u) = ok m
  checked m (err e) = err (map_error e)

  unfoldable pub parsed : Option (MapCollision F) → String → Result LoadError (MapCollision F)
  unfolding validate_map_collision
  parsed none expected = err parse_failed
  parsed (some m) expected = checked m (validate_map_collision fl to_lower m (trim_space expected))

  unfoldable pub read_at : Result PathError String → String → Result LoadError (MapCollision F)
  unfolding parsed
  read_at (err e) expected = err (path_error e)
  read_at (ok path) expected = elim (read_file path) [
    | none ↦ err read_failed
    | some bytes ↦ parsed (decode bytes) expected
  ]

  unfoldable pub load_map_collision : String → String → Result LoadError (MapCollision F)
  unfolding read_at resolve_project_path
  load_map_collision path expected = read_at (resolve_project_path fs path) expected

  unfoldable pub load_map_collision_metadata : String → String → Result LoadError MapMetadata
  unfolding load_map_collision metadata_of
  load_map_collision_metadata path expected = elim (load_map_collision path expected) [
    | err e ↦ err e
    | ok m ↦ ok (metadata_of fl m)
  ]
