-- ===== src/Level.antt =====
-- logicserver/repo/user.go and consts/const.go: the level of a player by its experience.
use demo_server.Prelude.{
  ℕ, zero, suc, ◌+◌, ◌/◌, Bool, true, false, List, [], ◌∷◌, ltb, leb, length, if◌then◌else◌,
}
use demo_server.Prelude.Int.{ℤ, pos, negsuc, leb_ℤ}
mod Search
mod Tests

-- consts.Level
abbrev pub levels : List ℕ
levels = 0 ∷ 500 ∷ 1500 ∷ 3000 ∷ 5000 ∷ []

-- consts.Level[i]; an index out of range is never read.
abbrev pub level_at : List ℕ → ℕ → ℕ
level_at [] i = 0
level_at (x ∷ xs) zero = x
level_at (x ∷ xs) (suc i) = level_at xs i

-- The loop of sort.Search between i and j.
unfoldable pub search_between : ℕ → ℕ → ℕ → (ℕ → Bool) → ℕ
search_between zero i j f = i
search_between (suc fuel) i j f =
    let lower = search_between fuel i ((i + j) / 2) f in
    let upper = search_between fuel ((i + j) / 2 + 1) j f in
    if ltb i j then (if f ((i + j) / 2) then lower else upper) else i

-- sort.Search: the distance halves, so as many steps as there are places are enough.
unfoldable pub search : ℕ → (ℕ → Bool) → ℕ
unfolding search_between
search n f = search_between n 0 n f

-- Whether Level[i] >= exp.
abbrev pub reaches : ℤ → ℕ → Bool
reaches exp i = leb_ℤ exp (pos (level_at levels i))

unfoldable pub judge_player_level : ℤ → ℕ
unfolding search
judge_player_level exp = search (length levels) (reaches exp) + 1
