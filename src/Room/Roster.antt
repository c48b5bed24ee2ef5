-- ===== src/Room/Roster.antt =====
-- roomserver/logic/room.go: the steps that leave the roster of a room alone.
use demo_server.Prelude.{
  ℕ, ◌+◌, ◌-◌, Bool, true, false, Option, none, some, List, [], ◌∷◌, ◌≡◌, refl, not, ltb, leb, ◌||◌,
  if◌then◌else◌, map, length,
}
use demo_server.Float.{Float}
use demo_server.Room.State.{
  Player, PlayerInput, AuthoritativeInput, Notice, Event, event_join, Room, game_over, game_start,
}
use demo_server.Room.Movement.{sanitize_player_input}
use demo_server.Room.Join.{
  send, send_all, push_event, join, release_join_slot, reconcile_join_slots, settle,
  mark_game_started, broadcast_game_start, broadcast_if, start_if_full, game_duration_seconds,
}
use demo_server.Room.Inputs.{set_sync, queue_input, input_of_alive}
use demo_server.Room.Update.{
  player_states, finish_game, broadcast_game_over, send_snapshots, snapshot_if_due, interval_ticks,
}

unfoldable pub roster : {F W : Type 0} → Room F W → ℕ × List (ℕ × Player F)
roster r = (r.max_players, r.players)

module _ {F W : Type 0} where
  pub roster-if :
      (b : Bool) (x y r : Room F W)
      → roster x ≡ roster r
      → roster y ≡ roster r
      → roster (if b then x else y) ≡ roster r
  roster-if true x y r p q = p
  roster-if false x y r p q = q

  roster-pair :
      (b : Bool) (x y : Room F W × Bool) (r : Room F W)
      → roster x.0 ≡ roster r
      → roster y.0 ≡ roster r
      → (let o : Room F W × Bool = if b then x else y in roster o.0) ≡ roster r
  roster-pair true x y r p q = p
  roster-pair false x y r p q = q

  roster-send_all :
      (ps : List (ℕ × Player F)) (n : Notice F) (r : Room F W) → roster (send_all ps n r) ≡ roster r
  unfolding send_all roster
  roster-send_all [] n r = refl
  roster-send_all ((_, p) ∷ ps) n r = roster-send_all ps n (unfold send in send p.session n r)

  roster-send_snapshots :
      (see : Player F → List (Player F) → List (Player F)) (all ps : List (Player F)) (r : Room F W)
      → roster (send_snapshots see all ps r) ≡ roster r
  unfolding send_snapshots roster
  roster-send_snapshots see all [] r = refl
  roster-send_snapshots see all (p ∷ ps) r = roster-send_snapshots see all ps _

  pub roster-snapshot_if_due :
      (see : Player F → List (Player F) → List (Player F)) (r : Room F W)
      → roster (snapshot_if_due see r) ≡ roster r
  unfolding snapshot_if_due roster
  roster-snapshot_if_due see r = roster-if (leb r.snapshot_rate 0) r _ r refl (
      roster-if (ltb (r.tick - r.last_snapshot_at) (interval_ticks r)) r _ r refl (
        roster-send_snapshots see (map (λ e. e.1) r.players) (map (λ e. e.1) r.players)
          (record r { last_snapshot_at = r.tick })))

  pub roster-finish_game : (r : Room F W) → roster (finish_game r) ≡ roster r
  unfolding finish_game broadcast_game_over roster
  roster-finish_game r =
      let closed : Room F W = record r { game_ended = true; join_closed = true } in
      roster-if r.game_ended r _ r refl (
        roster-send_all closed.players
          (game_over closed.id closed.tick closed.game_start_tick closed.game_end_tick
            (player_states closed))
          closed)

  pub roster-settle : (b : Bool) (o : Room F W × Bool) → roster (settle b o) ≡ roster o.0
  unfolding release_join_slot reconcile_join_slots roster
  roster-settle true (r, joined) =
      roster-if joined r _ r refl (roster-if (leb r.join_slots 0) r _ r refl refl)
  roster-settle false (r, joined) = refl

  roster-mark_game_started : (r : Room F W) → roster (mark_game_started r).0 ≡ roster r
  unfolding mark_game_started roster
  roster-mark_game_started r = roster-pair (r.game_started || r.game_ended) _ _ r refl refl

  pub roster-start_if_full : (r : Room F W) → roster (start_if_full r).0 ≡ roster r
  unfolding roster
  roster-start_if_full r =
      roster-pair (leb r.max_players (length r.players)) _ _ r (roster-mark_game_started r) refl

  pub roster-broadcast_if : (b : Bool) (r : Room F W) → roster (broadcast_if b r) ≡ roster r
  unfolding broadcast_game_start roster
  roster-broadcast_if b r =
      roster-if b _ r r
        (roster-send_all r.players
          (game_start r.id r.tick r.game_start_tick r.game_end_tick (game_duration_seconds r)) r)
        refl

  roster-queue_input :
      (fl : Float F) (id : ℕ) (r : Room F W) (o : Option (AuthoritativeInput F))
      → roster (queue_input fl id r o) ≡ roster r
  unfolding set_sync roster
  roster-queue_input fl id r none = refl
  roster-queue_input fl id r (some i) = refl

  pub roster-input_of_alive :
      (fl : Float F) (id : ℕ) (i : Option (PlayerInput F)) (r : Room F W) (o : Option (Player F))
      → roster (input_of_alive fl id i r o) ≡ roster r
  roster-input_of_alive fl id i r none = refl
  roster-input_of_alive fl id i r (some p) =
      roster-if (not p.alive) r _ r refl (roster-queue_input fl id r (sanitize_player_input fl i))

  pub roster-push_event : (e : Event F) (r : Room F W) → roster (push_event e r).0 ≡ roster r
  unfolding push_event roster
  roster-push_event e r = roster-pair (ltb (length r.events) 256) _ _ r refl refl

  pub roster-join : (p : Player F) (r : Room F W) → roster (join p r).0 ≡ roster r
  unfolding join roster
  roster-join p r =
      let o : Room F W × Bool =
        push_event (event_join p true) (record r { join_slots = r.join_slots + 1 }) in
      let same : roster o.0 ≡ roster r = roster-push_event (event_join p true) _ in
      roster-pair r.join_closed (r, false) _ r refl
        (roster-pair (ltb r.max_players (r.join_slots + 1)) (r, false) _ r refl
          (roster-pair o.1 (o.0, true) _ r same same))
