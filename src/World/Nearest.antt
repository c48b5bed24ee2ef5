-- ===== src/World/Nearest.antt =====
-- roomserver/logic/physics.go: which hit Raycast answers.
use demo_server.Prelude.{
  ℕ, Bool, true, false, Option, none, some, List, [], ◌∷◌, ◌==◌, ◌≡◌, ◌⊎◌, inl, inr, refl, sym, ap,
  ◌∙◌, subst, if◌then◌else◌, arith, All,
}
use demo_server.Prelude.Int.{pos}
use demo_server.Float.{Float}
use demo_server.Room.State.{Vector3, RaycastRequest}
use demo_server.World.{SimpleWorld, RayHit}
use demo_server.World.Rays.{
  at_most, player_distance, hit_at, closer, ray_turn, closest_hit, no_hit, raycast_simple,
  normalized_vector,
}

-- What the code relies on in float64: `<=` is transitive, and total where both are numbers.
pub record Compares {F : Type 0} (fl : Float F) : Type 0 where
  pub at_most_trans :
      (a b c : F) → at_most fl a b ≡ true → at_most fl b c ≡ true → at_most fl a c ≡ true
  pub at_most_total :
      (a b : F)
      → fl.is_nan a ≡ false
      → fl.is_nan b ≡ false
      → at_most fl a b ≡ false
      → at_most fl b a ≡ true
  pub at_most_refl : (a : F) → fl.is_nan a ≡ false → at_most fl a a ≡ true

module _ {F : Type 0} (fl : Float F) (q : RaycastRequest F) (direction : Vector3 F) where
  -- A distance that was computed is a number.
  abbrev pub IsNumber : Option F → Type 0
  IsNumber none = Unit
  IsNumber (some d) = fl.is_nan d ≡ false

  abbrev pub NotNearer : F → Option F → Type 0
  NotNearer best none = Unit
  NotNearer best (some d) = at_most fl best d ≡ true

  -- The player is the ignored one, or the ray does not hit it before `best`.
  abbrev pub IsBeaten : F → ℕ × Vector3 F → Type 0
  IsBeaten best p =
      ((p.0 == q.ignore_player_id) ≡ true) ⊎ NotNearer best (player_distance fl q direction p.1)

  -- The player is not the ignored one, and it is the hit.
  abbrev pub IsHit : F × RayHit F → ℕ × Vector3 F → Type 0
  IsHit best p =
      ((p.0 == q.ignore_player_id) ≡ false)
      × (player_distance fl q direction p.1 ≡ some best.0)
      × (best.1 ≡ hit_at fl q direction p.0 p.1 best.0)

  -- One of the players is the hit.
  abbrev pub IsChosen : F × RayHit F → List (ℕ × Vector3 F) → Type 0
  IsChosen best [] = ⊥
  IsChosen best (p ∷ ps) = IsHit best p ⊎ IsChosen best ps

  -- The best of two moments of the loop.
  abbrev Improves : F × RayHit F → F × RayHit F → Type 0
  Improves best best' = (fl.is_nan (best'.0) ≡ false) × (at_most fl best'.0 best.0 ≡ true)

  module _ (laws : Compares fl) where
    turn_lem :
        (p : ℕ × Vector3 F) (best : F × RayHit F)
        → fl.is_nan best.0 ≡ false
        → IsNumber (player_distance fl q direction p.1)
        → Improves best (ray_turn fl q direction p best)
          × IsBeaten ((ray_turn fl q direction p best).0) p
          × ((ray_turn fl q direction p best ≡ best) ⊎ IsHit (ray_turn fl q direction p best) p)
    unfolding ray_turn
    turn_lem (id, v) best n m =
        go (id == q.ignore_player_id) (player_distance fl q direction v) refl refl m
      where
        Goal : F × RayHit F → Type 0
        Goal new = Improves best new × IsBeaten (new.0) (id, v) × ((new ≡ best) ⊎ IsHit new (id, v))

        go :
            (b : Bool) (o : Option F)
            → (id == q.ignore_player_id) ≡ b
            → player_distance fl q direction v ≡ o
            → IsNumber o
            → Goal (if b then best else closer fl q direction id v o best)
        go true o e f k = ((n, laws.at_most_refl best.0 n), inl e, inl refl)
        go false none e f k =
            ((n, laws.at_most_refl best.0 n), inr (subst (NotNearer best.0) (sym f) tt), inl refl)
        go false (some d) e f k = test (at_most fl best.0 d) refl
          where
            test :
                (c : Bool)
                → at_most fl best.0 d ≡ c
                → Goal (if c then best else (d, hit_at fl q direction id v d))
            test true g = (
              (n, laws.at_most_refl best.0 n),
              inr (subst (NotNearer best.0) (sym f) g),
              inl refl,
            )
            test false g = (
              (k, laws.at_most_total best.0 d n k g),
              inr (subst (NotNearer d) (sym f) (laws.at_most_refl d k)),
              inr (e, f, refl),
            )

    IsBeaten-at_most :
        (a b : F) (p : ℕ × Vector3 F) → at_most fl b a ≡ true → IsBeaten a p → IsBeaten b p
    IsBeaten-at_most a b (id, v) h (inl e) = inl e
    IsBeaten-at_most a b (id, v) h (inr e) = inr (go (player_distance fl q direction v) e)
      where
        go : (o : Option F) → NotNearer a o → NotNearer b o
        go none e = tt
        go (some d) e = laws.at_most_trans b a d h e

    -- The loop: the best only improves, beats every player, and stays or is one of them.
    closest_hit_lem :
        (ps : List (ℕ × Vector3 F)) (best : F × RayHit F)
        → fl.is_nan best.0 ≡ false
        → All (λ p. IsNumber (player_distance fl q direction p.1)) ps
        → Improves best (closest_hit fl q direction ps best)
          × All (IsBeaten ((closest_hit fl q direction ps best).0)) ps
          × ((closest_hit fl q direction ps best ≡ best)
              ⊎ IsChosen (closest_hit fl q direction ps best) ps)
    unfolding closest_hit
    closest_hit_lem [] best n m = ((n, laws.at_most_refl best.0 n), tt, inl refl)
    closest_hit_lem (p ∷ ps) best n m =
        let next = ray_turn fl q direction p best in
        let final = closest_hit fl q direction ps next in
        let (better, beaten, chosen) = turn_lem p best n m.0 in
        let (better', beaten', chosen') = closest_hit_lem ps next better.0 m.1 in
        (
          (better'.0, laws.at_most_trans final.0 next.0 best.0 better'.1 better.1),
          (IsBeaten-at_most next.0 final.0 p better'.1 beaten, beaten'),
          elim chosen' [
            | inr c ↦ inr (inr c)
            | inl same ↦ elim chosen [
              | inl kept ↦ inl (same ∙ kept)
              | inr hit ↦ inr (inl (subst (λ x. IsHit x p) (sym same) hit))
            ]
          ],
        )

  -- The answer and the distance that it stands for.
  abbrev pub IsNearest : F → List (ℕ × Vector3 F) → RayHit F → Type 0
  IsNearest limit ps h =
      (bound : F) × All (IsBeaten bound) ps
      × (((bound ≡ limit) × (h ≡ no_hit fl)) ⊎ IsChosen (bound, h) ps)

module _ {F : Type 0} (fl : Float F) (laws : Compares fl) (q : RaycastRequest F) (w : SimpleWorld F)
    (direction : Vector3 F) (h : RayHit F) where
  limit : F
  limit = fl.add q.max_distance (fl.ratio (pos 1) 1)

  answer_lem :
      normalized_vector fl q.direction ≡ some direction
      → raycast_simple fl q w ≡ (some h, none)
      → (closest_hit fl q direction w.players (limit, no_hit fl)).1 ≡ h
  unfolding raycast_simple limit
  answer_lem d e = ground (arith, d, e)

  -- Raycast answers the nearest player on the ray: no player but the ignored one is hit sooner,
  -- and the answer is either one of the players, not the ignored one, with its own distance, or no
  -- hit, where no player is hit sooner than the maximum distance plus 1. This supposes that the
  -- request is valid, the world open, and that the distances which are compared are numbers.
  pub raycast_simple-IsNearest :
      normalized_vector fl q.direction ≡ some direction
      → fl.is_nan (fl.add q.max_distance (fl.ratio (pos 1) 1)) ≡ false
      → All (λ p. IsNumber fl q direction (player_distance fl q direction p.1)) w.players
      → raycast_simple fl q w ≡ (some h, none)
      → IsNearest fl q direction (fl.add q.max_distance (fl.ratio (pos 1) 1)) w.players h
  unfolding limit
  raycast_simple-IsNearest d n m e =
      let best = closest_hit fl q direction w.players (limit, no_hit fl) in
      let same = answer_lem d e in
      let (better, beaten, chosen) =
        closest_hit_lem fl q direction laws w.players (limit, no_hit fl) n m in
      (
        best.0,
        beaten,
        elim chosen [
          | inl none_hit ↦ inl (ap (λ b. b.0) none_hit, sym same ∙ ap (λ b. b.1) none_hit)
          | inr c ↦ inr (subst (λ x. IsChosen fl q direction (best.0, x) w.players) same c)
        ],
      )
