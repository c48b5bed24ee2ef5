-- ===== src/Level/Search.antt =====
-- logicserver/repo/user.go: the binary search of judgePlayerLevel against the table of levels.
use demo_server.Prelude.{
  ℕ, zero, suc, ◌+◌, ◌-◌, ◌/◌, ◌≤◌, ◌<◌, Bool, true, false, List, [], ◌∷◌, ltb, length,
  if◌then◌else◌, ◌≡◌, refl, ap, ◌∙◌, sym, arith, dec_lt, dec_le, All, subst,
}
use demo_server.Prelude.Int.{ℤ, pos, ltb_ℤ, leb_ℤ}
use demo_server.Level.{levels, level_at, search_between, search, reaches, judge_player_level}

-- From a place that passes on, every place before `n` passes.
abbrev pub IsMonotone : ℕ → (ℕ → Bool) → Type 0
IsMonotone n f = (a b : ℕ) → a ≤ b → b < n → f a ≡ true → f b ≡ true

-- `r` is the first place from i to j that passes, or j.
abbrev pub IsFirst : ℕ → ℕ → (ℕ → Bool) → ℕ → Type 0
IsFirst i j f r = (i ≤ r) × (r ≤ j) × ((k : ℕ) → i ≤ k → k < r → f k ≡ false) × (r < j → f r ≡ true)

IsFirst-empty : (i j : ℕ) (f : ℕ → Bool) → i ≡ j → IsFirst i j f i
IsFirst-empty i j f e = (
  omega arith,
  omega (arith, e),
  λ k a b. absurd (omega (arith, a, b)),
  λ l. absurd (omega (arith, e, l)),
)

-- The middle passes, so the first place is not after it.
IsFirst-lower :
    (i j h r : ℕ) (f : ℕ → Bool) → h < j → f h ≡ true → IsFirst i h f r → IsFirst i j f r
IsFirst-lower i j h r f l e a = (
  a.0,
  omega (arith, a.1, l),
  a.2,
  λ b. elim (dec_lt r h) [ yes c ↦ a.3 c | no c ↦ ap f (omega (arith, c, a.1)) ∙ e ],
)

false_below :
    (f : ℕ → Bool) (j k h : ℕ) → IsMonotone j f → h < j → k ≤ h → f h ≡ false → f k ≡ false
false_below f j k h m b l e = go (f k) refl
  where
    go : (c : Bool) → f k ≡ c → c ≡ false
    go true u = sym (m k h l b u) ∙ e
    go false u = refl

-- The middle does not pass, so no place before it does.
IsFirst-upper :
    (i j h r : ℕ) (f : ℕ → Bool)
    → i ≤ h
    → h < j
    → IsMonotone j f
    → f h ≡ false
    → IsFirst (h + 1) j f r
    → IsFirst i j f r
IsFirst-upper i j h r f l t m e a = (
  omega (arith, l, a.0),
  a.1,
  λ k b c. elim (dec_le k h) [
    | yes d ↦ false_below f j k h m t d e
    | no d ↦ a.2 k (omega (arith, d)) c
  ],
  a.3,
)

-- With as much fuel as places between them the search runs to its end.
search_between-IsFirst :
    (fuel i j : ℕ) (f : ℕ → Bool)
    → IsMonotone j f
    → i ≤ j
    → j ≤ i + fuel
    → IsFirst i j f (search_between fuel i j f)
unfolding search_between
search_between-IsFirst zero i j f m l u = IsFirst-empty i j f (omega (arith, l, u))
search_between-IsFirst (suc fuel) i j f m l u =
    go (ltb i j) (f ((i + j) / 2))
      (λ h.
        search_between-IsFirst fuel i ((i + j) / 2) f (λ a b c d. m a b c (omega (arith, d, h)))
          (omega (arith, h)) (omega (arith, h, u)))
      (λ h.
        search_between-IsFirst fuel ((i + j) / 2 + 1) j f m (omega (arith, h))
          (omega (arith, h, u)))
      refl refl
  where
    go :
        (b c : Bool)
        → (i < j → IsFirst i ((i + j) / 2) f (search_between fuel i ((i + j) / 2) f))
        → (i < j → IsFirst ((i + j) / 2 + 1) j f (search_between fuel ((i + j) / 2 + 1) j f))
        → ltb i j ≡ b
        → f ((i + j) / 2) ≡ c
        → IsFirst i j f (
            if b
            then (if c
                then search_between fuel i ((i + j) / 2) f
                else search_between fuel ((i + j) / 2 + 1) j f)
            else i)
    go false c lower upper e d = IsFirst-empty i j f (ground (arith, e, l))
    go true true lower upper e d =
        let h : i < j = ground (arith, e) in
        IsFirst-lower i j ((i + j) / 2) _ f (omega (arith, h)) d (lower h)
    go true false lower upper e d =
        let h : i < j = ground (arith, e) in
        IsFirst-upper i j ((i + j) / 2) _ f (omega (arith, h)) (omega (arith, h)) m d (upper h)

-- Each number of a list is at most those after it.
abbrev IsSorted : List ℕ → Type 0
IsSorted [] = Unit
IsSorted (x ∷ xs) = All (λ y. x ≤ y) xs × IsSorted xs

All-level_at : (P : ℕ → Type 0) (xs : List ℕ) (i : ℕ) → All P xs → i < length xs → P (level_at xs i)
All-level_at P [] i a h = absurd (omega (arith, h))
All-level_at P (x ∷ xs) zero a h = a.0
All-level_at P (x ∷ xs) (suc i) a h = All-level_at P xs i a.1 (omega (arith, h))

level_at-le :
    (xs : List ℕ) (a b : ℕ) → IsSorted xs → a ≤ b → b < length xs → level_at xs a ≤ level_at xs b
level_at-le [] a b s l h = absurd (omega (arith, h))
level_at-le (x ∷ xs) zero zero s l h = omega arith
level_at-le (x ∷ xs) zero (suc b) s l h = All-level_at (λ y. x ≤ y) xs b s.0 (omega (arith, h))
level_at-le (x ∷ xs) (suc a) zero s l h = absurd (omega (arith, l))
level_at-le (x ∷ xs) (suc a) (suc b) s l h =
    level_at-le xs a b s.1 (omega (arith, l)) (omega (arith, h))

levels-IsSorted : IsSorted levels
levels-IsSorted = ground arith

reaches-IsMonotone : (exp : ℤ) → IsMonotone (length levels) (reaches exp)
reaches-IsMonotone exp a b l h e = ground (arith, e, level_at-le levels a b levels-IsSorted l h)

-- The binary search of judgePlayerLevel runs to its end.
judge_player_level-IsFirst :
    (exp : ℤ) → IsFirst 0 (length levels) (reaches exp) (judge_player_level exp - 1)
unfolding judge_player_level search
judge_player_level-IsFirst exp =
    subst (λ (n : ℕ). IsFirst 0 (length levels) (reaches exp) n) (omega arith)
      (search_between-IsFirst 5 0 5 (reaches exp) (reaches-IsMonotone exp) (omega arith)
        (omega arith))

-- How many of the thresholds the experience exceeds, asked one after the other.
unfoldable pub exceeded : ℤ → List ℕ → ℕ
exceeded exp [] = 0
exceeded exp (x ∷ xs) = let rest = exceeded exp xs in if ltb_ℤ (pos x) exp then rest + 1 else rest

exceeded_none :
    (exp : ℤ) (x : ℕ) (xs : List ℕ)
    → ltb_ℤ (pos x) exp ≡ false
    → All (λ y. x ≤ y) xs
    → exceeded exp xs ≡ 0
unfolding exceeded
exceeded_none exp x [] h a = refl
exceeded_none exp x (y ∷ ys) h a = ground (arith, h, a.0, exceeded_none exp x ys h a.1)

-- In a sorted table the thresholds before the first one that is reached are those exceeded.
exceeded-IsFirst :
    (exp : ℤ) (xs : List ℕ) (r : ℕ)
    → IsSorted xs
    → IsFirst 0 (length xs) (λ i. leb_ℤ exp (pos (level_at xs i))) r
    → exceeded exp xs ≡ r
unfolding exceeded
exceeded-IsFirst exp [] r s f = omega (arith, f.1)
exceeded-IsFirst exp (x ∷ xs) zero s f =
    let reached : leb_ℤ exp (pos x) ≡ true = f.3 (omega arith) in
    let not_yet : ltb_ℤ (pos x) exp ≡ false = ground (arith, reached) in
    rw not_yet (exceeded_none exp x xs not_yet s.0)
exceeded-IsFirst exp (x ∷ xs) (suc r) s f =
    let missed : leb_ℤ exp (pos x) ≡ false = f.2 0 (omega arith) (omega arith) in
    let passed : ltb_ℤ (pos x) exp ≡ true = ground (arith, missed) in
    let rest : exceeded exp xs ≡ r = exceeded-IsFirst exp xs r s.1 (
      omega arith,
      omega (arith, f.1),
      λ k a b. f.2 (suc k) (omega arith) (omega (arith, b)),
      λ l. f.3 (omega (arith, l)),
    ) in
    rw passed (omega (arith, rest))

-- The binary search of judgePlayerLevel ends and gives what counting gives: the level is one more
-- than the number of thresholds of the table that the experience exceeds.
pub judge_player_level-exceeded : (exp : ℤ) → judge_player_level exp ≡ exceeded exp levels + 1
unfolding judge_player_level
judge_player_level-exceeded exp =
    let counted : exceeded exp levels ≡ judge_player_level exp - 1 =
      exceeded-IsFirst exp levels (judge_player_level exp - 1) levels-IsSorted
        (judge_player_level-IsFirst exp) in
    omega (arith, counted)
