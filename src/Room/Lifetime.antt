-- ===== src/Room/Lifetime.antt =====
-- roomserver/logic/room.go: the clock of a match, and the events that leave it alone.
use demo_server.Prelude.{
  ℕ, suc, ◌+◌, ◌-◌, Bool, true, false, Option, none, some, List, [], ◌∷◌, ◌≡◌, refl, ap, ◌∙◌, not,
  ltb, leb, ◌&&◌, ◌||◌, if◌then◌else◌, map, length, ℕ_discrete,
}
use demo_server.Prelude.Assoc.{lookup}
use demo_server.Float.{Float}
use demo_server.Room.State.{
  Player, PlayerInput, AuthoritativeInput, Physics, Notice, Event, event_join, event_leave,
  event_input, event_player_stats_query, Room,
}
use demo_server.Room.Movement.{sanitize_player_input}
use demo_server.Room.Join.{
  send, send_all, release_join_slot, reconcile_join_slots, reject, try_join, settle,
  handle_join_event, leave_found, handle_leave, unless_present,
}
use demo_server.Room.Inputs.{set_sync, queue_input, input_of_alive, handle_input}
use demo_server.Room.Update.{
  send_snapshots, snapshot_if_due, interval_ticks, handle_player_stats_query, handle_event,
}

-- The clock of a match, with the number of the calls of `onFinished`.
pub record MatchClock : Type 0 where
  pub tick : ℕ
  pub game_started : Bool
  pub game_ended : Bool
  pub game_end_tick : ℕ
  pub finish_calls : ℕ

unfoldable pub match_clock : {F W : Type 0} → Room F W → MatchClock
match_clock r = record {
  tick = r.tick;
  game_started = r.game_started;
  game_ended = r.game_ended;
  game_end_tick = r.game_end_tick;
  finish_calls = length r.finished;
}

abbrev pub clock_decision : MatchClock → MatchClock × Bool
clock_decision c =
    if c.game_started && not c.game_ended && ltb 0 c.game_end_tick && leb c.game_end_tick c.tick
    then (record c { game_ended = true; finish_calls = suc c.finish_calls }, true)
    else (c, false)

-- A frame of the clock alone.
unfoldable pub clock_frame : MatchClock → MatchClock × Bool
clock_frame c = if c.game_ended then (c, true) else clock_decision (record c { tick = c.tick + 1 })

module _ {F W : Type 0} where
  pub clock-send_all :
      (ps : List (ℕ × Player F)) (n : Notice F) (r : Room F W)
      → match_clock (send_all ps n r) ≡ match_clock r
  unfolding send_all match_clock
  clock-send_all [] n r = refl
  clock-send_all ((_, p) ∷ ps) n r = clock-send_all ps n (unfold send in send p.session n r)

  clock-send_snapshots :
      (see : Player F → List (Player F) → List (Player F)) (all ps : List (Player F)) (r : Room F W)
      → match_clock (send_snapshots see all ps r) ≡ match_clock r
  unfolding send_snapshots match_clock
  clock-send_snapshots see all [] r = refl
  clock-send_snapshots see all (p ∷ ps) r = clock-send_snapshots see all ps _

  pub clock-if :
      (b : Bool) (x y r : Room F W)
      → match_clock x ≡ match_clock r
      → match_clock y ≡ match_clock r
      → match_clock (if b then x else y) ≡ match_clock r
  clock-if true x y r p q = p
  clock-if false x y r p q = q

  pub clock-snapshot_if_due :
      (see : Player F → List (Player F) → List (Player F)) (r : Room F W)
      → match_clock (snapshot_if_due see r) ≡ match_clock r
  unfolding snapshot_if_due match_clock
  clock-snapshot_if_due see r =
      let sent : Room F W = record r { last_snapshot_at = r.tick } in
      clock-if (leb r.snapshot_rate 0) r _ r refl (
        clock-if (ltb (r.tick - r.last_snapshot_at) (interval_ticks r)) r _ r refl
          (clock-send_snapshots see (map (λ e. e.1) r.players) (map (λ e. e.1) r.players) sent))

  clock-settle : (b : Bool) (o : Room F W × Bool) → match_clock (settle b o) ≡ match_clock o.0
  unfolding release_join_slot reconcile_join_slots match_clock
  clock-settle true (r, joined) =
      clock-if joined r _ r refl (clock-if (leb r.join_slots 0) r _ r refl refl)
  clock-settle false (r, joined) = refl

  clock-leave_found :
      (phys : Physics F W) (id : ℕ) (r : Room F W) (o : Option (Player F))
      → match_clock (leave_found phys id r o) ≡ match_clock r
  unfolding reconcile_join_slots match_clock
  clock-leave_found phys id r none = refl
  clock-leave_found phys id r (some p) = refl

  clock-queue_input :
      (fl : Float F) (id : ℕ) (r : Room F W) (o : Option (AuthoritativeInput F))
      → match_clock (queue_input fl id r o) ≡ match_clock r
  unfolding set_sync match_clock
  clock-queue_input fl id r none = refl
  clock-queue_input fl id r (some i) = refl

  clock-input_of_alive :
      (fl : Float F) (id : ℕ) (i : Option (PlayerInput F)) (r : Room F W) (o : Option (Player F))
      → match_clock (input_of_alive fl id i r o) ≡ match_clock r
  clock-input_of_alive fl id i r none = refl
  clock-input_of_alive fl id i r (some p) =
      clock-if (not p.alive) r _ r refl (clock-queue_input fl id r (sanitize_player_input fl i))

  clock-try_join :
      (fl : Float F) (phys : Physics F W) (p : Player F) (r : Room F W)
      → r.game_started ≡ true
      → match_clock (try_join fl phys p r).0 ≡ match_clock r
  unfolding try_join reject send match_clock
  clock-try_join fl phys p r h =
      ap
        (λ (b : Bool).
          match_clock
            (if b || r.game_ended
              then reject p "game already started" r
              else if leb r.max_players (length r.players)
              then reject p "room is full" r
              else unless_present fl phys p r (lookup ℕ_discrete p.id r.players)).0)
        h

  -- Once the match has started, no event touches its clock.
  pub clock-handle_event :
      (fl : Float F) (phys : Physics F W) (e : Event F) (r : Room F W)
      → r.game_started ≡ true
      → match_clock (handle_event fl phys e r) ≡ match_clock r
  unfolding handle_event handle_join_event handle_leave handle_input handle_player_stats_query
      match_clock
  clock-handle_event fl phys (event_join p reserved) r h =
      clock-settle reserved (try_join fl phys p r) ∙ clock-try_join fl phys p r h
  clock-handle_event fl phys (event_leave id) r h =
      clock-leave_found phys id r (lookup ℕ_discrete id r.players)
  clock-handle_event fl phys (event_input id i) r h =
      clock-if r.game_ended r _ r refl
        (clock-input_of_alive fl id i r (lookup ℕ_discrete id r.players))
  clock-handle_event fl phys (event_player_stats_query requester target channel) r h = refl
