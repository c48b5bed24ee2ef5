-- ===== src/Room/Evolution.antt =====
-- roomserver/logic/room.go: players under a shot, from its damage to the respawn.
use demo_server.Prelude.{
  ℕ, ◌+◌, ◌-◌, Bool, true, false, Option, none, some, ◌≡◌, ◌≢◌, refl, sym, not, ◌==◌, ltb,
  if◌then◌else◌, arith, subst, ℕ_discrete,
}
use demo_server.Prelude.Text.{is_empty}
use demo_server.Prelude.Assoc.{lookup, lookup-insert}
use demo_server.Float.{Float}
use demo_server.Room.State.{Player, SpawnPoint, Physics, Room}
use demo_server.Room.Join.{place_at}
use demo_server.Room.Create.{duration_to_ticks}
use demo_server.Room.Inputs.{set_sync}
use demo_server.Room.Fire.{
  set_player, or_add, revive, respawn_at, respawn_player_at_spawn, spawn_point_by_id, count_kill,
  apply_fire_damage, is_invincible,
}
use demo_server.Room.Evolve.{Evolves, AllEvolve, AllEvolve-refl, AllEvolve-trans, AllEvolve-insert}

module _ {F W : Type 0} where
  -- What the room holds of a player at this moment.
  abbrev pub Holds : Player F → Room F W → Type 0
  Holds p r = lookup ℕ_discrete p.id r.players ≡ some p

  pub evolve-set :
      (p q : Player F) (r : Room F W)
      → Holds p r
      → Evolves p q
      → AllEvolve r.players (set_player q r).players
  unfolding set_player
  evolve-set p q r h e =
      AllEvolve-insert q.id p q r.players
        (subst (λ (k : ℕ). lookup ℕ_discrete k r.players ≡ some p) (sym e.same_id) h) e

  pub Holds-set : (p : Player F) (r : Room F W) → Holds p (set_player p r)
  unfolding set_player
  Holds-set p r = ground (arith, lookup-insert ℕ_discrete p.id p.id p r.players)

  -- Another player is held as before.
  Holds-set_other :
      (p q : Player F) (r : Room F W) → p.id ≢ q.id → Holds q r → Holds q (set_player p r)
  unfolding set_player
  Holds-set_other p q r ne h = ground (arith, lookup-insert ℕ_discrete p.id q.id p r.players)

  pub evolve-if :
      (b : Bool) (x y r : Room F W)
      → (b ≡ true → AllEvolve r.players x.players)
      → (b ≡ false → AllEvolve r.players y.players)
      → AllEvolve r.players (if b then x else y).players
  evolve-if true x y r p q = p refl
  evolve-if false x y r p q = q refl

module _ {F : Type 0} where
  Evolves-place_at :
      (fl : Float F) (s : SpawnPoint F) (t : ℕ) (p : Player F) → Evolves p (place_at fl s t p)
  unfolding place_at
  Evolves-place_at fl s t p = record {
    same_id = refl;
    same_spawn = refl;
    kills_grow = omega arith;
    deaths_grow = omega arith;
    healthy = λ h. (omega arith, λ a. omega arith);
  }

  Evolves-hurt : (p : Player F) → ltb 0 (p.hp - 20) ≡ true → Evolves p (record p { hp = p.hp - 20 })
  Evolves-hurt p h = record {
    same_id = refl;
    same_spawn = refl;
    kills_grow = omega arith;
    deaths_grow = omega arith;
    healthy = λ u. (omega (arith, u.0), λ a. ground (arith, h));
  }

  abbrev killed : Player F → Player F
  killed p = record p { hp = p.hp - 20; death_count = p.death_count + 1; alive = false }

  Evolves-killed : (p : Player F) → Evolves p (killed p)
  Evolves-killed p = record {
    same_id = refl;
    same_spawn = refl;
    kills_grow = omega arith;
    deaths_grow = omega arith;
    healthy = λ u. (omega (arith, u.0), λ a. ground (arith, a));
  }

  Evolves-killing : (p : Player F) → Evolves p (record p { kill_count = p.kill_count + 1 })
  Evolves-killing p = record {
    same_id = refl;
    same_spawn = refl;
    kills_grow = omega arith;
    deaths_grow = omega arith;
    healthy = λ u. u;
  }

module _ {F W : Type 0} (fl : Float F) (phys : Physics F W) where
  evolve-revive :
      (p : Player F) (s : SpawnPoint F) (r : Room F W) (o : W × Bool)
      → Holds p r
      → AllEvolve r.players (revive fl p s r o).players
  unfolding set_sync
  evolve-revive p s r (w, false) h = AllEvolve-refl r.players
  evolve-revive p s r (w, true) h =
      evolve-set p _ (record r { physics = w }) h
        (Evolves-place_at fl s (r.tick + duration_to_ticks 5_000_000_000 r.tick_rate) p)

  evolve-respawn_at :
      (p : Player F) (r : Room F W) (o : Option (SpawnPoint F))
      → Holds p r
      → AllEvolve r.players (respawn_at fl phys p r o).players
  evolve-respawn_at p r none h = AllEvolve-refl r.players
  evolve-respawn_at p r (some s) h =
      evolve-revive p s r (or_add phys p.id s (phys.set_player_position p.id s.position r.physics))
        h

  evolve-respawn :
      (p : Player F) (r : Room F W)
      → Holds p r
      → AllEvolve r.players (respawn_player_at_spawn fl phys p r).players
  unfolding respawn_player_at_spawn
  evolve-respawn p r h =
      evolve-if (is_empty p.spawn_id) r _ r (λ e. AllEvolve-refl r.players)
        (λ e. evolve-respawn_at p r (spawn_point_by_id p.spawn_id (phys.spawn_points r.physics)) h)

  evolve-count_kill :
      (shooter target : Player F) (r : Room F W)
      → Holds shooter r
      → AllEvolve r.players (count_kill shooter target r).players
  evolve-count_kill shooter target r h =
      evolve-if (shooter.id == target.id) r _ r (λ e. AllEvolve-refl r.players)
        (λ e. evolve-set shooter _ r h (Evolves-killing shooter))

  Holds-count_kill :
      (shooter target : Player F) (r : Room F W)
      → shooter.id ≢ target.id
      → Holds target r
      → Holds target (count_kill shooter target r)
  Holds-count_kill shooter target r ne h = go (shooter.id == target.id)
    where
      go :
          (b : Bool)
          → Holds target (
              if b
              then r
              else set_player (record shooter { kill_count = shooter.kill_count + 1 }) r)
      go true = h
      go false = Holds-set_other _ target r ne h

  evolve-killed :
      (shooter target : Player F) (r : Room F W)
      → shooter.id ≢ target.id
      → Holds shooter r
      → Holds target r
      → AllEvolve r.players
          (respawn_player_at_spawn fl phys
            (killed target)
            (set_player (killed target) (count_kill shooter target r))).players
  evolve-killed shooter target r ne hs ht =
      let counted : Room F W = count_kill shooter target r in
      let fallen : Room F W = set_player (killed target) counted in
      AllEvolve-trans r.players counted.players _ (evolve-count_kill shooter target r hs) (
        AllEvolve-trans counted.players fallen.players _
          (evolve-set target (killed target) counted (Holds-count_kill shooter target r ne ht)
            (Evolves-killed target))
          (evolve-respawn (killed target) fallen (Holds-set (killed target) counted)))

  pub evolve-apply_fire_damage :
      (shooter target : Player F) (r : Room F W)
      → shooter.id ≢ target.id
      → Holds shooter r
      → Holds target r
      → AllEvolve r.players (apply_fire_damage fl phys shooter target r).players
  unfolding apply_fire_damage
  evolve-apply_fire_damage shooter target r ne hs ht =
      evolve-if (not target.alive) r _ r (λ e. AllEvolve-refl r.players)
        (λ e.
          evolve-if (is_invincible r.tick target) r _ r (λ e'. AllEvolve-refl r.players)
            (λ e'.
              evolve-if (ltb 0 (target.hp - 20)) _ _ r
                (λ l. evolve-set target _ r ht (Evolves-hurt target l))
                (λ l. evolve-killed shooter target r ne hs ht)))
