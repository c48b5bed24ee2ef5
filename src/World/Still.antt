-- ===== src/World/Still.antt =====
-- roomserver/logic/movement.go and physics.go: the room's moves in the simple physics world.
use demo_server.Prelude.{
  Bool, true, false, not, Option, none, some, ◌≡◌, sym, ap, ◌∙◌, subst, if◌then◌else◌, arith,
  ℕ_discrete,
}
use demo_server.Prelude.Assoc.{lookup, insert, lookup-insert}
use demo_server.Float.{Float}
use demo_server.Room.State.{
  Vector3, MoveRequest, MoveResult, PhysicsError, world_closed, invalid_request,
}
use demo_server.Room.Movement.{clamp_float}
use demo_server.World.{SimpleWorld, FullMove, FullResult, zero_float, world_limit}
use demo_server.World.Simple.{
  move_from, move_found, move_player_simple, valid_move, of_room, short_result, simple_physics,
}

module _ {F : Type 0} (fl : Float F) where
  open fl use {add, mul, neg, less}

  -- A coordinate inside the world, to which 0 * 0 adds nothing (so not -0).
  abbrev pub IsInside : F → Type 0
  IsInside x =
      (less x (neg (world_limit fl)) ≡ false)
      × (less (world_limit fl) x ≡ false)
      × (add x (mul (zero_float fl) (zero_float fl)) ≡ x)

  clamp_inside :
      (x : F)
      → IsInside x
      → clamp_float fl
          (add x (mul (zero_float fl) (zero_float fl)))
          (neg (world_limit fl))
          (world_limit fl)
        ≡ x
  unfolding clamp_float
  clamp_inside x i = ground (arith, i)

  module _ (q : MoveRequest F) (w : SimpleWorld F) (v : Vector3 F) (r : MoveResult F) where
    move_from_lem :
        IsInside v.x
        → IsInside v.z
        → ((move_from fl (of_room fl q) v).position.x ≡ v.x)
          × ((move_from fl (of_room fl q) v).position.z ≡ v.z)
    unfolding move_from of_room
    move_from_lem a b = (clamp_inside v.x a, clamp_inside v.z b)

    stored :
        (m : FullMove F) (w' : SimpleWorld F)
        → (move_found fl m w (some v)).0 ≡ w'
        → short_result fl ((move_found fl m w (some v)).1) ≡ some r
        → (r.position ≡ (move_from fl m v).position)
          × (w' ≡ record w { players = insert ℕ_discrete m.request.player_id r.position w.players })
    unfolding move_found
    stored m w' a b =
        let same : r.position ≡ (move_from fl m v).position = ground (arith, b) in
        (
          same,
          sym a
              ∙ ap (λ p. record w { players = insert ℕ_discrete m.request.player_id p w.players })
                  (sym same),
        )

    -- A move that is answered has stored its position.
    moved_lem :
        (m : FullMove F) (w' : SimpleWorld F)
        → lookup ℕ_discrete m.request.player_id w.players ≡ some v
        → (move_player_simple fl m w).0 ≡ w'
        → short_result fl ((move_player_simple fl m w).1) ≡ some r
        → (r.position ≡ (move_from fl m v).position)
          × (w' ≡ record w { players = insert ℕ_discrete m.request.player_id r.position w.players })
    unfolding move_player_simple
    moved_lem m w' found a b = go (valid_move fl m) w.closed a b
      where
        go :
            (valid closed : Bool)
            → let o : SimpleWorld F × Option (FullResult F) × Option PhysicsError =
                (if not valid
                  then (w, none, some invalid_request)
                  else if closed
                  then (w, none, some world_closed)
                  else move_found fl m w (lookup ℕ_discrete m.request.player_id w.players)) in
              (o.0 ≡ w')
              → (short_result fl (o.1) ≡ some r)
              → (r.position ≡ (move_from fl m v).position)
                × (w' ≡ record w {
                  players = insert ℕ_discrete m.request.player_id r.position w.players;
                })
        go false closed a b = absurd (ground (arith, b))
        go true true a b = absurd (ground (arith, b))
        go true false a b =
            stored m w' (subst (λ o. (move_found fl m w o).0 ≡ w') found a)
              (subst (λ o. short_result fl ((move_found fl m w o).1) ≡ some r) found b)

  -- In the simple world a move that the room asks for leaves the player where it stands on the
  -- ground plane: x and z are as before, for every request of the room and every player inside the
  -- world.
  pub move_player-IsStill :
      (q : MoveRequest F) (w w' : SimpleWorld F) (v : Vector3 F) (r : MoveResult F)
      → lookup ℕ_discrete q.player_id w.players ≡ some v
      → IsInside v.x
      → IsInside v.z
      → (simple_physics fl).move_player q w ≡ (w', some r)
      → (r.position.x ≡ v.x)
        × (r.position.z ≡ v.z)
        × (lookup ℕ_discrete q.player_id w'.players ≡ some r.position)
  unfolding simple_physics of_room
  move_player-IsStill q w w' v r found a b e =
      let (position, world) =
        moved_lem q w v r (of_room fl q) w' found (ap (λ o. o.0) e) (ap (λ o. o.1) e) in
      let (x, z) = move_from_lem q w v r a b in
      (
        ap (λ p. p.x) position ∙ x,
        ap (λ p. p.z) position ∙ z,
        ap (λ u. lookup ℕ_discrete q.player_id u.players) world
            ∙ lookup-insert ℕ_discrete q.player_id q.player_id r.position w.players
            ∙ ground arith,
      )
