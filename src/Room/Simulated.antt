-- ===== src/Room/Simulated.antt =====
-- roomserver/logic/room.go: players over the simulation of a frame, from one shot to all players.
use demo_server.Prelude.{
  ℕ, Bool, true, false, Option, none, some, List, [], ◌∷◌, ◌≡◌, refl, ◌∙◌, not, ◌==◌, ltb, leb,
  if◌then◌else◌, arith, ap, ℕ_discrete, ◌&&◌, ◌||◌,
}
use demo_server.Prelude.Assoc.{lookup}
use demo_server.Float.{Float}
use demo_server.Room.State.{
  Player, AuthoritativeInput, Physics, MoveRequest, MoveResult, RaycastHit, Room,
}
use demo_server.Prelude.Int.{pos}
use demo_server.Room.Inputs.{sync_of, set_sync, input_for_tick}
use demo_server.Room.Movement.{
  build_move_player_request, apply_view_rotation, should_move_player, jump_or_fall, gravity,
}
use demo_server.Room.Fire.{set_player, hit_player, after_ray, handle_player_fire, fire_ray}
use demo_server.Room.Update.{
  moved_to, after_move, request_move, fire_of, simulate_player_tick, close_tick, simulate_if,
  update_alive, update_found, update_players, clear_expired_invincibility, is_moving,
}
use demo_server.Room.Evolve.{
  Evolves, Evolves-refl, Evolves-same, Evolves-trans, AllEvolve, AllEvolve-refl, AllEvolve-trans,
  KeysMatch, AllEvolve-KeysMatch, lookup-KeysMatch,
}
use demo_server.Room.Evolution.{Holds, evolve-set, Holds-set, evolve-if, evolve-apply_fire_damage}

module _ {F W : Type 0} (fl : Float F) (phys : Physics F W) where
  evolve-hit_player :
      (shooter : Player F) (r : Room F W) (id : ℕ) (o : Option (Player F))
      → lookup ℕ_discrete id r.players ≡ o
      → (id == shooter.id) ≡ false
      → KeysMatch r.players
      → Holds shooter r
      → AllEvolve r.players (hit_player fl phys shooter r o).players
  evolve-hit_player shooter r id none e ne keys hs = AllEvolve-refl r.players
  evolve-hit_player shooter r id (some target) e ne keys hs =
      let own : target.id ≡ id = lookup-KeysMatch id target r.players keys e in
      evolve-if (not target.alive) r _ r (λ a. AllEvolve-refl r.players)
        (λ a.
          evolve-apply_fire_damage fl phys shooter target r (λ s. ground (arith, ne, own, s)) hs
            (ap (λ (k : ℕ). lookup ℕ_discrete k r.players) own ∙ e))

  evolve-after_ray :
      (shooter : Player F) (r : Room F W) (o : W × Option (RaycastHit F))
      → KeysMatch r.players
      → Holds shooter r
      → AllEvolve r.players (after_ray fl phys shooter r o).players
  evolve-after_ray shooter r (w, none) keys hs = AllEvolve-refl r.players
  evolve-after_ray shooter r (w, some h) keys hs =
      evolve-if (not h.hit || h.target_id == 0 || h.target_id == shooter.id) _ _ r
        (λ e. AllEvolve-refl r.players)
        (λ e.
          evolve-hit_player shooter (record r { physics = w }) h.target_id _ refl
            (ground (arith, e)) keys hs)

  evolve-fire :
      (p : Player F) (r : Room F W)
      → KeysMatch r.players
      → Holds p r
      → AllEvolve r.players (handle_player_fire fl phys p r).players
  unfolding handle_player_fire
  evolve-fire p r keys h =
      evolve-if (not p.alive) r _ r (λ e. AllEvolve-refl r.players)
        (λ e. evolve-after_ray p r (phys.raycast (fire_ray fl p) r.physics) keys h)

  evolve-fire_of :
      (r : Room F W) (id : ℕ) (o : Option (Player F))
      → KeysMatch r.players
      → lookup ℕ_discrete id r.players ≡ o
      → AllEvolve r.players (fire_of fl phys r o).players
  evolve-fire_of r id none keys e = AllEvolve-refl r.players
  evolve-fire_of r id (some p) keys e =
      let own : p.id ≡ id = lookup-KeysMatch id p r.players keys e in
      evolve-fire p r keys (ap (λ (k : ℕ). lookup ℕ_discrete k r.players) own ∙ e)

  Evolves-moved : (m : MoveResult F) (p : Player F) → Evolves p (moved_to m p)
  Evolves-moved m p = Evolves-same p _ (refl, refl, refl, refl, refl, refl)

  evolve-after_move :
      (p : Player F) (r : Room F W) (o : W × Option (MoveResult F))
      → Holds p r
      → AllEvolve r.players (after_move fl phys p r o).players
  evolve-after_move p r (w, none) h = AllEvolve-refl r.players
  evolve-after_move p r (w, some m) h =
      evolve-set p (moved_to m p) (record r { physics = w }) h (Evolves-moved m p)

  evolve-request_move :
      (p : Player F) (r : Room F W) (o : Option (MoveRequest F))
      → Holds p r
      → AllEvolve r.players (request_move fl phys p r o).players
  evolve-request_move p r none h = AllEvolve-refl r.players
  evolve-request_move p r (some q) h =
      evolve-if (should_move_player fl q) _ r r
        (λ e. evolve-after_move p r (phys.move_player q r.physics) h)
        (λ e. AllEvolve-refl r.players)

  Evolves-jump_or_fall :
      (delta : F) (p q : Player F) (jump : Bool)
      → Evolves p q
      → Evolves p (jump_or_fall fl delta q jump)
  unfolding jump_or_fall
  Evolves-jump_or_fall delta p q jump e = go (q.grounded && jump) (not q.grounded)
    where
      go :
          (rise fall : Bool)
          → Evolves p (
              if rise
              then record q {
                vertical_velocity = fl.add (fl.ratio (pos 87) 10) (fl.mul (gravity fl) delta);
                grounded = false;
              }
              else if fall
              then record q {
                vertical_velocity = fl.add q.vertical_velocity (fl.mul (gravity fl) delta);
              }
              else q)
      go true fall = Evolves-trans e (Evolves-same q _ (refl, refl, refl, refl, refl, refl))
      go false true = Evolves-trans e (Evolves-same q _ (refl, refl, refl, refl, refl, refl))
      go false false = e

  Evolves-either :
      (b : Bool) (p : Player F) (x y : Player F × Option (MoveRequest F))
      → Evolves p x.0
      → Evolves p y.0
      → (let o : Player F × Option (MoveRequest F) = if b then x else y in Evolves p o.0)
  Evolves-either true p x y e e' = e
  Evolves-either false p x y e e' = e'

  -- What is decided before the move: the view, the speed upwards and the crouch.
  Evolves-build :
      (p : Player F) (i : AuthoritativeInput F) (rate : ℕ)
      → Evolves p (build_move_player_request fl (apply_view_rotation fl p i) i rate).0
  unfolding build_move_player_request apply_view_rotation
  Evolves-build p i rate =
      let q : Player F = apply_view_rotation fl p i in
      let viewed : Evolves p q = Evolves-same p q (refl, refl, refl, refl, refl, refl) in
      Evolves-either (q.id == 0 || leb rate 0) p (q, none) _ viewed
        (Evolves-jump_or_fall _ p _ i.jump (Evolves-same p _ (refl, refl, refl, refl, refl, refl)))

  evolve-simulate :
      (p : Player F) (i : AuthoritativeInput F) (exact : Bool) (r : Room F W)
      → KeysMatch r.players
      → Holds p r
      → AllEvolve r.players (simulate_player_tick fl phys p i exact r).players
  unfolding simulate_player_tick
  evolve-simulate p i exact r keys h =
      let (q, wanted) = build_move_player_request fl (apply_view_rotation fl p i) i r.tick_rate in
      let built : Room F W = set_player q r in
      let moved : Room F W = request_move fl phys q built wanted in
      let a : AllEvolve r.players moved.players =
        AllEvolve-trans r.players built.players moved.players
          (evolve-set p q r h (Evolves-build p i r.tick_rate))
          (evolve-request_move q built wanted (Holds-set q r)) in
      evolve-if (exact && i.fire) _ _ r
        (λ e.
          AllEvolve-trans r.players moved.players _ a
            (evolve-fire_of moved q.id _ (AllEvolve-KeysMatch r.players moved.players a keys) refl))
        (λ e. a)

  evolve-simulate_if :
      (moving : Bool) (p : Player F) (i : AuthoritativeInput F) (exact : Bool) (r : Room F W)
      → KeysMatch r.players
      → Holds p r
      → AllEvolve r.players (simulate_if fl phys moving p i exact r).players
  evolve-simulate_if moving p i exact r keys h =
      evolve-if moving _ r r (λ e. evolve-simulate p i exact r keys h)
        (λ e. AllEvolve-refl r.players)

  Evolves-clear : (tick : ℕ) (p : Player F) → Evolves p (clear_expired_invincibility tick p)
  unfolding clear_expired_invincibility
  Evolves-clear tick p = go (p.invincible_until_tick == 0 || ltb tick p.invincible_until_tick)
    where
      go : (b : Bool) → Evolves p (if b then p else record p { invincible_until_tick = 0 })
      go true = Evolves-refl p
      go false = Evolves-same p _ (refl, refl, refl, refl, refl, refl)

  evolve-update_alive :
      (id : ℕ) (p : Player F) (r : Room F W)
      → KeysMatch r.players
      → Holds p r
      → AllEvolve r.players (update_alive fl phys id p r).players
  unfolding update_alive close_tick set_sync
  evolve-update_alive id p r keys h =
      let q = clear_expired_invincibility r.tick p in
      let (s, i, exact) = input_for_tick fl r.tick r.max_input_hold_ticks (sync_of fl id r) in
      let begun : Room F W = set_sync id s (set_player q r) in
      let a : AllEvolve r.players begun.players = evolve-set p q r h (Evolves-clear r.tick p) in
      AllEvolve-trans r.players begun.players _ a (
        evolve-simulate_if (is_moving fl q s exact) q i exact begun
          (AllEvolve-KeysMatch r.players begun.players a keys) (Holds-set q r))

  evolve-update_found :
      (id : ℕ) (r : Room F W) (o : Option (Player F))
      → KeysMatch r.players
      → lookup ℕ_discrete id r.players ≡ o
      → AllEvolve r.players (update_found fl phys id r o).players
  evolve-update_found id r none keys e = AllEvolve-refl r.players
  evolve-update_found id r (some p) keys e =
      let own : p.id ≡ id = lookup-KeysMatch id p r.players keys e in
      evolve-if (not p.alive) r _ r (λ d. AllEvolve-refl r.players)
        (λ d.
          evolve-update_alive id p r keys (ap (λ (k : ℕ). lookup ℕ_discrete k r.players) own ∙ e))

  -- A frame takes no player away: where every player stands under its own id, each stays the same
  -- player at the same spawn point, its counts of kills and deaths do not fall, and if its health was
  -- in bounds it still is.
  pub evolve-update_players :
      (ids : List ℕ) (r : Room F W)
      → KeysMatch r.players
      → AllEvolve r.players (update_players fl phys ids r).players
  unfolding update_players
  evolve-update_players [] r keys = AllEvolve-refl r.players
  evolve-update_players (id ∷ ids) r keys =
      let next : Room F W = update_found fl phys id r (lookup ℕ_discrete id r.players) in
      let a : AllEvolve r.players next.players =
        evolve-update_found id r (lookup ℕ_discrete id r.players) keys refl in
      AllEvolve-trans r.players next.players _ a
        (evolve-update_players ids next (AllEvolve-KeysMatch r.players next.players a keys))
