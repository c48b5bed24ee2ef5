-- ===== src/Manager/Rewards.antt =====
-- roomserver/logic/room_manager.go: the rewards of a finished match.
use demo_server.Prelude.{
  ℕ, ◌<◌, Bool, true, false, ltb, if◌then◌else◌, ap, List, [], ◌∷◌, map, ◌≡◌, refl, ◌∙◌, arith,
  length, length-map, ℕ_discrete,
}
use demo_server.Prelude.Assoc.{lookup}
use demo_server.Room.State.{Room}
use demo_server.Manager.{Manager, Settlement}
use demo_server.Manager.Settle.{kills_of, kill_counts, reward_two, rewards, settlement, finish_room}

-- What a player should get by its own kills and those of the other one.
abbrev pub IsPrize : ℕ → ℕ → ℕ → ℕ → Type 0
IsPrize mine other coin exp =
    (other < mine → (coin ≡ 1000) × (exp ≡ 500))
    × (mine ≡ other → (coin ≡ 800) × (exp ≡ 400))
    × (mine < other → (coin ≡ 300) × (exp ≡ 200))

-- Each of the two under its own prize.
reward_two-prizes :
    (a b : ℕ)
    → (c d e f : ℕ) × ((reward_two a b).0 ≡ c ∷ d ∷ [])
      × ((reward_two a b).1 ≡ e ∷ f ∷ [])
      × IsPrize a b c e
      × IsPrize b a d f
unfolding reward_two
reward_two-prizes a b = go (ltb b a) (ltb a b) refl refl
  where
    go :
        (x y : Bool)
        → ltb b a ≡ x
        → ltb a b ≡ y
        → (let won : List ℕ × List ℕ =
              if x
              then (1000 ∷ 300 ∷ [], 500 ∷ 200 ∷ [])
              else if y
              then (300 ∷ 1000 ∷ [], 200 ∷ 500 ∷ [])
              else (800 ∷ 800 ∷ [], 400 ∷ 400 ∷ []) in
            (c d e f : ℕ) × (won.0 ≡ c ∷ d ∷ [])
            × (won.1 ≡ e ∷ f ∷ [])
            × IsPrize a b c e
            × IsPrize b a d f)
    go true y g h = (1000, 300, 500, 200, refl, refl, ground (arith, g), ground (arith, g))
    go false true g h = (300, 1000, 200, 500, refl, refl, ground (arith, h), ground (arith, h))
    go false false g h =
        (800, 800, 400, 400, refl, refl, ground (arith, g, h), ground (arith, g, h))

-- The same sum for every one.
map_same :
    (kills : ℕ → ℕ) (n : ℕ) (ids : List ℕ)
    → map (λ (k : ℕ). n) (map kills ids) ≡ map (λ (k : ℕ). n) ids
map_same kills n [] = refl
map_same kills n (p ∷ ps) = ap (λ ks. n ∷ ks) (map_same kills n ps)

module _ {F W : Type 0} (r : Room F W) where
  abbrev pub kills : ℕ → ℕ
  kills id = kills_of (lookup ℕ_discrete id r.players)

  -- What the players should get. Only a match of two is won or lost.
  abbrev pub ArePrizes : List ℕ → List ℕ → List ℕ → Type 0
  ArePrizes (p ∷ q ∷ []) coins exps =
      (c d e f : ℕ) × (coins ≡ c ∷ d ∷ [])
      × (exps ≡ e ∷ f ∷ [])
      × IsPrize (kills p) (kills q) c e
      × IsPrize (kills q) (kills p) d f
  ArePrizes ids coins exps = (coins ≡ map (λ id. 300) ids) × (exps ≡ map (λ id. 200) ids)

  -- What finishRoom asks the logicserver to settle.
  abbrev pub IsSettled : List ℕ → Settlement → Type 0
  IsSettled ids s =
      (s.player_ids ≡ ids) × (s.kill_count ≡ map kills ids) × ArePrizes ids s.coin s.exp

  rewards-ArePrizes :
      (ids : List ℕ) → ArePrizes ids (rewards (map kills ids)).0 (rewards (map kills ids)).1
  unfolding rewards
  rewards-ArePrizes [] = (refl, refl)
  rewards-ArePrizes (p ∷ []) = (refl, refl)
  rewards-ArePrizes (p ∷ q ∷ []) = reward_two-prizes (kills p) (kills q)
  rewards-ArePrizes (p ∷ q ∷ x ∷ xs) =
      (map_same kills 300 (p ∷ q ∷ x ∷ xs), map_same kills 200 (p ∷ q ∷ x ∷ xs))

  -- At the end of a match with players finishRoom asks the logicserver for one more settlement: of
  -- the players listed, with the kills of each. In a match of two each player gets 1000 coins and 500
  -- points of experience for more kills than the other, 800 and 400 for as many, and 300 and 200 for
  -- fewer; with any other number everybody gets 300 and 200.
  pub finish_room-IsSettled :
      (current : Bool) (p : ℕ) (ps : List ℕ) (m : Manager F W)
      → (s : Settlement) × ((finish_room current r (p ∷ ps) m).settled ≡ s ∷ m.settled)
        × IsSettled (p ∷ ps) s
  unfolding finish_room settlement kill_counts
  finish_room-IsSettled current p ps m =
      (settlement (p ∷ ps) (map kills (p ∷ ps)), refl, (refl, refl, rewards-ArePrizes (p ∷ ps)))

length-rewards :
    (kills : List ℕ)
    → (length (rewards kills).0 ≡ length kills) × (length (rewards kills).1 ≡ length kills)
unfolding rewards reward_two
length-rewards [] = (refl, refl)
length-rewards (a ∷ []) = (refl, refl)
length-rewards (a ∷ b ∷ []) = ground arith
length-rewards (a ∷ b ∷ c ∷ ks) =
    (length-map (a ∷ b ∷ c ∷ ks) (λ (k : ℕ). 300), length-map (a ∷ b ∷ c ∷ ks) (λ (k : ℕ). 200))

-- The request to the logicserver has a kill count, coins and experience for every player of it.
pub settlement-lengths :
    {F W : Type 0} (r : Room F W) (ids : List ℕ)
    → let s : Settlement = settlement ids (kill_counts r ids) in
      (length s.kill_count ≡ length ids)
      × (length s.coin ≡ length ids)
      × (length s.exp ≡ length ids)
unfolding settlement kill_counts
settlement-lengths r ids =
    let kills : List ℕ = map (λ (id : ℕ). kills_of (lookup ℕ_discrete id r.players)) ids in
    let same : length kills ≡ length ids =
      length-map ids (λ (id : ℕ). kills_of (lookup ℕ_discrete id r.players)) in
    (same, (length-rewards kills).0 ∙ same, (length-rewards kills).1 ∙ same)
