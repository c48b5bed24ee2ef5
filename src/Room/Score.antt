-- ===== src/Room/Score.antt =====
-- roomserver/logic/room.go: what a hit does to the counts of kills and deaths.
use demo_server.Prelude.{
  ℕ, ◌+◌, ◌-◌, Bool, true, false, Option, none, some, ◌≡◌, ◌≢◌, refl, ap, ◌∙◌, sym, not, ◌==◌, ltb,
  leb, ◌&&◌, if◌then◌else◌, arith, if_neg, ℕ_discrete, subst,
}
use demo_server.Prelude.Text.{is_empty}
use demo_server.Prelude.Assoc.{lookup, lookup-insert}
use demo_server.Float.{Float}
use demo_server.Room.State.{Player, SpawnPoint, Physics, Room}
use demo_server.Room.Create.{duration_to_ticks}
use demo_server.Room.Join.{place_at}
use demo_server.Room.Inputs.{set_sync}
use demo_server.Room.Fire.{
  is_invincible, set_player, or_add, revive, respawn_at, respawn_player_at_spawn, spawn_point_by_id,
  count_kill, apply_fire_damage,
}
use demo_server.Room.Evolution.{Holds, Holds-set}

abbrev pub points : Bool → ℕ
points b = if b then 1 else 0

module _ {F : Type 0} where
  abbrev pub kills_of : Option (Player F) → ℕ
  kills_of none = 0
  kills_of (some p) = p.kill_count

  abbrev pub deaths_of : Option (Player F) → ℕ
  deaths_of none = 0
  deaths_of (some p) = p.death_count

  -- Whether a hit in this frame kills: the target lives, is not protected and has at most 20 points.
  abbrev pub is_fatal : ℕ → Player F → Bool
  unfolding is_invincible
  is_fatal tick target = target.alive && not (is_invincible tick target) && leb target.hp 20

module _ {F W : Type 0} where
  -- The shooter has `n` kills more and the target `n` deaths, and no one else has changed.
  pub record Scores (shooter target n : ℕ) (r r' : Room F W) : Type 0 where
    pub kills :
        kills_of (lookup ℕ_discrete shooter r'.players)
        ≡ kills_of (lookup ℕ_discrete shooter r.players) + n
    pub deaths :
        deaths_of (lookup ℕ_discrete target r'.players)
        ≡ deaths_of (lookup ℕ_discrete target r.players) + n
    pub others :
        (k : ℕ)
        → shooter ≢ k
        → target ≢ k
        → lookup ℕ_discrete k r'.players ≡ lookup ℕ_discrete k r.players

  lookup-set_other :
      (p : Player F) (r : Room F W) (k : ℕ)
      → p.id ≢ k
      → lookup ℕ_discrete k (set_player p r).players ≡ lookup ℕ_discrete k r.players
  unfolding set_player
  lookup-set_other p r k ne =
      lookup-insert ℕ_discrete p.id k p r.players ∙ rw (if_neg (ℕ_discrete p.id k) ne) refl

  -- A respawn changes its player alone, and not its deaths.
  abbrev Respawned : Player F → Room F W → Room F W → Type 0
  Respawned p r r' =
      (deaths_of (lookup ℕ_discrete p.id r'.players) ≡ p.death_count)
      × ((k : ℕ) → p.id ≢ k → lookup ℕ_discrete k r'.players ≡ lookup ℕ_discrete k r.players)

  Respawned-same : (p : Player F) (r : Room F W) → Holds p r → Respawned p r r
  Respawned-same p r h = (ap deaths_of h, λ k ne. refl)

  Respawned-if :
      (b : Bool) (p : Player F) (r x y : Room F W)
      → Respawned p r x
      → Respawned p r y
      → Respawned p r (if b then x else y)
  Respawned-if true p r x y h k = h
  Respawned-if false p r x y h k = k

module _ {F W : Type 0} (fl : Float F) (phys : Physics F W) where
  Respawned-revive :
      (p : Player F) (s : SpawnPoint F) (r : Room F W) (o : W × Bool)
      → Holds p r
      → Respawned p r (revive fl p s r o)
  unfolding set_sync place_at
  Respawned-revive p s r (w, false) h = (ap deaths_of h, λ k ne. refl)
  Respawned-revive p s r (w, true) h =
      let q : Player F = place_at fl s (r.tick + duration_to_ticks 5_000_000_000 r.tick_rate) p in
      (
        ap deaths_of (Holds-set q (record r { physics = w })),
        λ k ne. lookup-set_other q (record r { physics = w }) k ne,
      )

  Respawned-respawn_at :
      (p : Player F) (r : Room F W) (o : Option (SpawnPoint F))
      → Holds p r
      → Respawned p r (respawn_at fl phys p r o)
  Respawned-respawn_at p r none h = Respawned-same p r h
  Respawned-respawn_at p r (some s) h =
      Respawned-revive p s r
        (or_add phys p.id s (phys.set_player_position p.id s.position r.physics)) h

  Respawned-respawn :
      (p : Player F) (r : Room F W)
      → Holds p r
      → Respawned p r (respawn_player_at_spawn fl phys p r)
  unfolding respawn_player_at_spawn
  Respawned-respawn p r h =
      Respawned-if (is_empty p.spawn_id) p r r _ (Respawned-same p r h)
        (Respawned-respawn_at p r (spawn_point_by_id p.spawn_id (phys.spawn_points r.physics)) h)

  abbrev scored : Player F → Player F
  scored p = record p { kill_count = p.kill_count + 1 }

  abbrev fallen : Player F → Player F
  fallen p = record p { hp = p.hp - 20; death_count = p.death_count + 1; alive = false }

  count_kill_other :
      (shooter target : Player F) (r : Room F W)
      → shooter.id ≢ target.id
      → count_kill shooter target r ≡ set_player (scored shooter) r
  count_kill_other shooter target r ne =
      let e : (shooter.id == target.id) ≡ false = ground (arith, ne) in
      ap (λ (b : Bool). if b then r else set_player (scored shooter) r) e

  Scores-kill :
      (shooter target : Player F) (r : Room F W)
      → shooter.id ≢ target.id
      → Holds shooter r
      → Holds target r
      → Scores shooter.id target.id 1 r (
          respawn_player_at_spawn fl phys
            (fallen target)
            (set_player (fallen target) (set_player (scored shooter) r)))
  Scores-kill shooter target r ne hs ht =
      let counted : Room F W = set_player (scored shooter) r in
      let down : Room F W = set_player (fallen target) counted in
      let back = Respawned-respawn (fallen target) down (Holds-set (fallen target) counted) in
      record {
        kills =
            ap kills_of (
              back.1 shooter.id (λ e. ne (sym e))
              ∙ lookup-set_other (fallen target) counted shooter.id (λ e. ne (sym e))
              ∙ Holds-set (scored shooter) r)
            ∙ ap (λ (n : ℕ). n + 1) (sym (ap kills_of hs));
        deaths = back.0 ∙ ap (λ (n : ℕ). n + 1) (sym (ap deaths_of ht));
        others = λ k s t.
            back.1 k t
            ∙ lookup-set_other (fallen target) counted k t
            ∙ lookup-set_other (scored shooter) r k s;
      }

  Scores-none : (shooter target : ℕ) (r : Room F W) → Scores shooter target 0 r r
  Scores-none shooter target r = record {
    kills = omega arith;
    deaths = omega arith;
    others = λ k s t. refl;
  }

  Scores-wound :
      (shooter target : Player F) (r : Room F W)
      → shooter.id ≢ target.id
      → Holds target r
      → Scores shooter.id target.id 0 r (set_player (record target { hp = target.hp - 20 }) r)
  Scores-wound shooter target r ne ht =
      let q : Player F = record target { hp = target.hp - 20 } in
      record {
        kills = omega (arith, ap kills_of (lookup-set_other q r shooter.id (λ e. ne (sym e))));
        deaths = omega (arith, ap deaths_of (Holds-set q r), ap deaths_of ht);
        others = λ k s t. lookup-set_other q r k t;
      }

  -- A hit by another player: where it is fatal, the shooter has one kill more and the target one
  -- death more, otherwise the counts of both are as before; whether the target then respawns or not,
  -- every other player is untouched. A hit is fatal where the target lives, is not invincible and
  -- has at most 20 points.
  pub apply_fire_damage-Scores :
      (shooter target : Player F) (r : Room F W)
      → shooter.id ≢ target.id
      → Holds shooter r
      → Holds target r
      → Scores shooter.id target.id
          (points (is_fatal r.tick target))
          r
          (apply_fire_damage fl phys shooter target r)
  unfolding apply_fire_damage is_fatal
  apply_fire_damage-Scores shooter target r ne hs ht =
      go target.alive (is_invincible r.tick target) (ltb 0 (target.hp - 20)) (leb target.hp 20)
        (ground arith)
    where
      go :
          (alive safe lives low : Bool)
          → low ≡ not lives
          → Scores shooter.id target.id (points (alive && not safe && low)) r (
              if not alive
              then r
              else if safe
              then r
              else if lives
              then set_player (record target { hp = target.hp - 20 }) r
              else respawn_player_at_spawn fl phys
                  (fallen target)
                  (set_player (fallen target) (count_kill shooter target r)))
      go false safe lives low e = Scores-none shooter.id target.id r
      go true true lives low e = Scores-none shooter.id target.id r
      go true false true false e = Scores-wound shooter target r ne ht
      go true false true true e = absurd (ground (arith, e))
      go true false false false e = absurd (ground (arith, e))
      go true false false true e =
          subst
            (λ (counted : Room F W). Scores shooter.id target.id 1 r (
              respawn_player_at_spawn fl phys (fallen target) (set_player (fallen target) counted)))
            (sym (count_kill_other shooter target r ne)) (Scores-kill shooter target r ne hs ht)
