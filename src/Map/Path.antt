-- ===== src/Map/Path.antt =====
-- roomserver/physx/map_collision.go: the path of a map and the search of the project root. The
-- package os and path/filepath are parameters.
use demo_server.Prelude.{
  ℕ, zero, suc, ◌+◌, ◌<◌, String, Bool, true, false, Option, none, some, ◌≡◌, ◌⊎◌, inl, inr, refl,
  arith, if◌then◌else◌, ite, subst, sym,
}
use Prim.Native.String.{len}
use demo_server.Prelude.Text.{is_empty, trim_space, string_discrete}
use demo_server.Prelude.Actions.{Result, ok, err}

-- The working directory, os.Stat without an error, and filepath's Dir, Join, IsAbs and Clean.
pub record Files : Type 0 where
  pub getwd : Option String
  pub exists : String → Bool
  pub dir : String → String
  pub join : String → String → String
  pub is_abs : String → Bool
  pub clean : String → String

-- What their documentation says: the working directory is absolute, and the directory of an
-- absolute path is absolute and shorter, but for the root's, which is the root.
pub record IsFiles (fs : Files) : Type 0 where
  pub getwd_abs : (w : String) → fs.getwd ≡ some w → fs.is_abs w ≡ true
  pub dir_abs : (p : String) → fs.is_abs p ≡ true → fs.is_abs (fs.dir p) ≡ true
  pub dir_shorter : (p : String) → fs.is_abs p ≡ true → (fs.dir p ≡ p) ⊎ (len (fs.dir p) < len p)

-- `no_fuel` is for a search that has not ended.
pub data PathError : Type 0 where
  path_empty getwd_failed root_not_found no_fuel : PathError

module _ (fs : Files) where
  open fs use {getwd, exists, dir, join, is_abs, clean}

  -- The loop of findProjectRoot, from a directory.
  unfoldable pub search_up : ℕ → String → Result PathError String
  search_up zero current = err no_fuel
  search_up (suc n) current =
      let rest = search_up n (dir current) in
      if exists (join current "go.mod")
      then ok current
      else ite (string_discrete (dir current) current) (err root_not_found) rest

  unfoldable pub search_from : Option String → Result PathError String
  unfolding search_up
  search_from none = err getwd_failed
  search_from (some w) = search_up (len w + 1) w

  unfoldable pub find_project_root : Result PathError String
  unfolding search_from
  find_project_root = search_from getwd

  -- A path that is there, seen from the working directory, goes before the project root.
  abbrev pub from_workdir : String → Option String → Option String
  from_workdir path none = none
  from_workdir path (some w) = if exists (join w path) then some (clean (join w path)) else none

  unfoldable pub from_root : String → Result PathError String → Result PathError String
  from_root path (err e) = err e
  from_root path (ok root) = ok (join root path)

  unfoldable pub resolve_project_path : String → Result PathError String
  unfolding find_project_root from_root
  resolve_project_path text =
      let path = trim_space text in
      if is_empty path
      then err path_empty
      else if is_abs path
      then ok (clean path)
      else elim (from_workdir path getwd) [
        | some found ↦ ok found
        | none ↦ from_root path find_project_root
      ]

  -- What the search should answer from a directory: the directory itself where it has a go.mod,
  -- else what it should answer from the one above, and nothing above the root.
  pub data Nearest : String → Result PathError String → Type 0 where
    here : {c : String} → exists (join c "go.mod") ≡ true → Nearest c (ok c)
    at_root :
        {c : String} → exists (join c "go.mod") ≡ false → dir c ≡ c → Nearest c (err root_not_found)
    above :
        {c : String} {r : Result PathError String}
        → exists (join c "go.mod") ≡ false
        → ¬ (dir c ≡ c)
        → Nearest (dir c) r
        → Nearest c r

  module _ (laws : IsFiles fs) where
    search_up-Nearest :
        (n : ℕ) (c : String) → len c < n → is_abs c ≡ true → Nearest c (search_up n c)
    unfolding search_up
    search_up-Nearest zero c h a = absurd (omega (arith, h))
    search_up-Nearest (suc n) c h a =
        go (exists (join c "go.mod")) refl (string_discrete (dir c) c)
          (λ less. search_up-Nearest n (dir c) (omega (arith, less, h)) (laws.dir_abs c a))
      where
        go :
            (b : Bool)
            → exists (join c "go.mod") ≡ b
            → (d : Dec (dir c ≡ c)) → (len (dir c) < len c → Nearest (dir c) (search_up n (dir c)))
            → Nearest c (if b then ok c else ite d (err root_not_found) (search_up n (dir c)))
        go true e d more = here e
        go false e (yes top) more = at_root e top
        go false e (no below) more = above e below (up (laws.dir_shorter c a))
          where
            up : (dir c ≡ c) ⊎ (len (dir c) < len c) → Nearest (dir c) (search_up n (dir c))
            up (inl top) = absurd (below top)
            up (inr less) = more less

    -- findProjectRoot ends, with no more turns than the working directory has letters and one more,
    -- and answers the nearest directory with a go.mod, from the working directory up to the root, or
    -- that there is none.
    pub find_project_root-Nearest : (w : String) → getwd ≡ some w → Nearest w find_project_root
    unfolding find_project_root search_from
    find_project_root-Nearest w e =
        subst (λ o. Nearest w (search_from o)) (sym e)
          (search_up-Nearest (len w + 1) w (omega arith) (laws.getwd_abs w e))
