-- ===== src/Room/Start.antt =====
-- roomserver/logic/room.go: the start of a match by a join event.
use demo_server.Prelude.{
  ℕ, ◌+◌, ◌<◌, Bool, true, false, Option, none, some, List, [], ◌∷◌, ◌≡◌, refl, ◌∙◌, sym, leb, ◌||◌,
  if◌then◌else◌, length, arith, ℕ_discrete, subst,
}
use demo_server.Prelude.Assoc.{lookup, insert}
use demo_server.Float.{Float}
use demo_server.Room.State.{
  Player, SpawnPoint, Physics, PhysicsError, Notice, join_ack, game_start, Room,
}
use demo_server.Room.Join.{
  send, send_all, reject, try_join, admit, after_add, at_spawn, unless_present, joined_player,
  first_free, handle_join_event, settle, release_join_slot, reconcile_join_slots, start_if_full,
  mark_game_started, broadcast_game_start, broadcast_if, build_join_ack, new_player_sync_state,
  game_duration_seconds,
}

-- What the start of a match sets, and how many are in.
pub record Opening : Type 0 where
  pub game_started : Bool
  pub join_closed : Bool
  pub game_start_tick : ℕ
  pub game_end_tick : ℕ
  pub seats : ℕ

unfoldable pub opening : {F W : Type 0} → Room F W → Opening
opening r = record {
  game_started = r.game_started;
  join_closed = r.join_closed;
  game_start_tick = r.game_start_tick;
  game_end_tick = r.game_end_tick;
  seats = length r.players;
}

-- The match is on exactly where the places are taken, and what is on started in frame `tick` and
-- lasts `duration` frames, with the room closed.
abbrev pub StartsWhenFull : ℕ → ℕ → ℕ → Opening → Type 0
StartsWhenFull limit tick duration o =
    (o.game_started ≡ leb limit o.seats)
    × (o.game_started ≡ true
        → (o.join_closed ≡ true) × (o.game_start_tick ≡ tick) × (o.game_end_tick ≡ tick + duration))

module _ {F W : Type 0} where
  opening-send_all :
      (ps : List (ℕ × Player F)) (n : Notice F) (r : Room F W)
      → opening (send_all ps n r) ≡ opening r
  unfolding send_all opening
  opening-send_all [] n r = refl
  opening-send_all ((_, p) ∷ ps) n r = opening-send_all ps n (unfold send in send p.session n r)

  opening-if :
      (b : Bool) (x y r : Room F W)
      → opening x ≡ opening r
      → opening y ≡ opening r
      → opening (if b then x else y) ≡ opening r
  opening-if true x y r p q = p
  opening-if false x y r p q = q

  opening-broadcast_if : (b : Bool) (r : Room F W) → opening (broadcast_if b r) ≡ opening r
  unfolding broadcast_game_start
  opening-broadcast_if b r =
      opening-if b _ r r
        (opening-send_all r.players
          (game_start r.id r.tick r.game_start_tick r.game_end_tick (game_duration_seconds r)) r)
        refl

  opening-settle : (b : Bool) (o : Room F W × Bool) → opening (settle b o) ≡ opening o.0
  unfolding release_join_slot reconcile_join_slots opening
  opening-settle true (r, joined) =
      opening-if joined r _ r refl (opening-if (leb r.join_slots 0) r _ r refl refl)
  opening-settle false (r, joined) = refl

  -- Before: the match is not on and has not ended, and a place is free.
  abbrev pub IsOpen : Room F W → Type 0
  IsOpen r = (r.game_started ≡ false) × (r.game_ended ≡ false) × (length r.players < r.max_players)

  StartsWhenFull-open :
      (r : Room F W)
      → IsOpen r
      → StartsWhenFull r.max_players r.tick r.game_duration_ticks (opening r)
  unfolding opening
  StartsWhenFull-open r h = (h.0 ∙ ground (arith, h.2), λ e. absurd (ground (arith, h.0, e)))

  StartsWhenFull-start_if_full :
      (r : Room F W)
      → r.game_started ≡ false
      → r.game_ended ≡ false
      → StartsWhenFull r.max_players r.tick r.game_duration_ticks (opening (start_if_full r).0)
  unfolding opening mark_game_started
  StartsWhenFull-start_if_full r h k =
      go (leb r.max_players (length r.players)) (r.game_started || r.game_ended) refl
        (ground (arith, h, k))
    where
      go :
          (full on : Bool)
          → leb r.max_players (length r.players) ≡ full
          → on ≡ false
          → (let o : Room F W × Bool =
                if full
                then (if on then (r, false) else (
                  record r {
                    game_started = true;
                    join_closed = true;
                    join_slots = r.max_players;
                    game_start_tick = r.tick;
                    game_end_tick = r.tick + r.game_duration_ticks;
                  },
                  true,
                ))
                else (r, false) in
              StartsWhenFull r.max_players r.tick r.game_duration_ticks (opening o.0))
      go true true e n = absurd (ground (arith, n))
      go true false e n = (sym e, λ u. (refl, refl, refl))
      go false on e n = (h ∙ sym e, λ u. absurd (ground (arith, h, u)))

  abbrev StartsIn : Room F W → Room F W → Type 0
  StartsIn r r' = StartsWhenFull r.max_players r.tick r.game_duration_ticks (opening r')

  StartsIn-opening : (r r' s : Room F W) → opening r' ≡ opening s → StartsIn r s → StartsIn r r'
  StartsIn-opening r r' s same h =
      subst (λ (o : Opening). StartsWhenFull r.max_players r.tick r.game_duration_ticks o)
        (sym same) h

  StartsIn-admit :
      (fl : Float F) (p : Player F) (r : Room F W) → IsOpen r → StartsIn r (admit fl p r).0
  unfolding admit send opening
  StartsIn-admit fl p r h =
      let added : Room F W = record r {
        players = insert ℕ_discrete p.id p r.players;
        sync_states = insert ℕ_discrete p.id (new_player_sync_state fl) r.sync_states;
      } in
      let o : Room F W × Bool = start_if_full added in
      let told : Room F W = send p.session (join_ack (build_join_ack true (some p) "ok" o.0)) o.0 in
      StartsIn-opening r (broadcast_if o.1 told) told (opening-broadcast_if o.1 told)
        (StartsWhenFull-start_if_full added h.0 h.1)

  StartsIn-after_add :
      (fl : Float F) (p : Player F) (r : Room F W) (o : W × Option PhysicsError)
      → IsOpen r
      → StartsIn r (after_add fl p r o).0
  unfolding reject send opening
  StartsIn-after_add fl p r (w, none) h = StartsIn-admit fl p (record r { physics = w }) h
  StartsIn-after_add fl p r (w, some e) h = StartsWhenFull-open r h

  StartsIn-at_spawn :
      (fl : Float F) (phys : Physics F W) (p : Player F) (r : Room F W) (o : Option (SpawnPoint F))
      → IsOpen r
      → StartsIn r (at_spawn fl phys p r o).0
  unfolding reject send opening
  StartsIn-at_spawn fl phys p r none h = StartsWhenFull-open r h
  StartsIn-at_spawn fl phys p r (some s) h =
      StartsIn-after_add fl (joined_player fl r s p) r (phys.add_player p.id s.position r.physics) h

  StartsIn-unless_present :
      (fl : Float F) (phys : Physics F W) (p : Player F) (r : Room F W) (o : Option (Player F))
      → IsOpen r
      → StartsIn r (unless_present fl phys p r o).0
  unfolding reject send opening
  StartsIn-unless_present fl phys p r (some q) h = StartsWhenFull-open r h
  StartsIn-unless_present fl phys p r none h =
      StartsIn-at_spawn fl phys p r (first_free r.players (phys.spawn_points r.physics)) h

  StartsIn-pair :
      (r : Room F W) (b : Bool) (x y : Room F W × Bool)
      → StartsIn r x.0
      → StartsIn r y.0
      → (let o : Room F W × Bool = if b then x else y in StartsIn r o.0)
  StartsIn-pair r true x y p q = p
  StartsIn-pair r false x y p q = q

  -- A join event in a room whose match is not on and has a free place: afterwards the match is on
  -- exactly where the last place was taken, started in this frame for its full duration, and the
  -- room is closed to further joins.
  pub handle_join_event-StartsWhenFull :
      (fl : Float F) (phys : Physics F W) (p : Player F) (reserved : Bool) (r : Room F W)
      → IsOpen r
      → StartsWhenFull r.max_players r.tick r.game_duration_ticks
          (opening (handle_join_event fl phys p reserved r))
  unfolding handle_join_event try_join reject send opening
  handle_join_event-StartsWhenFull fl phys p reserved r h =
      StartsIn-opening r (handle_join_event fl phys p reserved r) (try_join fl phys p r).0
        (opening-settle reserved (try_join fl phys p r))
        (StartsIn-pair r (r.game_started || r.game_ended) _ _ (StartsWhenFull-open r h) (
          StartsIn-pair r (leb r.max_players (length r.players)) _ _ (StartsWhenFull-open r h)
            (StartsIn-unless_present fl phys p r (lookup ℕ_discrete p.id r.players) h)))
