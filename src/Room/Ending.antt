-- ===== src/Room/Ending.antt =====
-- roomserver/logic/room.go: `update` seen as a frame of the clock of the match.
use demo_server.Prelude.{
  suc, ◌+◌, Bool, true, false, List, ◌∷◌, ◌≡◌, refl, ap, ◌∙◌, if◌then◌else◌, length,
}
use demo_server.Float.{Float}
use demo_server.Room.State.{Player, Physics, Room, game_over}
use demo_server.Room.Update.{
  update_players, player_ids, player_states, should_finish_game, finish_game, broadcast_game_over,
  snapshot_if_due, update,
}
use demo_server.Room.Frame.{Frame, frame, frame-update_players}
use demo_server.Room.Lifetime.{
  MatchClock, match_clock, clock_frame, clock_decision, clock-send_all, clock-snapshot_if_due,
}

unfoldable pub clocked : {F W : Type 0} → Room F W × Bool → MatchClock × Bool
unfolding match_clock
clocked o = (match_clock o.0, o.1)

module _ {F W : Type 0} where
  clock-finish_game :
      (r : Room F W)
      → r.game_ended ≡ false
      → match_clock (finish_game r)
        ≡ record (match_clock r) { game_ended = true; finish_calls = suc (length r.finished) }
  unfolding finish_game broadcast_game_over match_clock
  clock-finish_game r h =
      let closed : Room F W = record r { game_ended = true; join_closed = true } in
      let over : Room F W = broadcast_game_over closed in
      ap
        (λ (b : Bool).
          match_clock (if b then r else record over { finished = player_ids over ∷ over.finished }))
        h
      ∙ ap (λ (c : MatchClock). record c { finish_calls = suc c.finish_calls })
          (clock-send_all closed.players
            (game_over closed.id closed.tick closed.game_start_tick closed.game_end_tick
              (player_states closed))
            closed)

  clock_decide :
      (see : Player F → List (Player F) → List (Player F)) (b : Bool) (r : Room F W)
      → r.game_ended ≡ false
      → clocked (if b then (finish_game r, true) else (snapshot_if_due see r, false)) ≡ (
          if b
          then (
            record (match_clock r) { game_ended = true; finish_calls = suc (length r.finished) },
            true,
          )
          else (match_clock r, false))
  unfolding clocked
  clock_decide see true r h = ap (λ (c : MatchClock). (c, true)) (clock-finish_game r h)
  clock_decide see false r h = ap (λ (c : MatchClock). (c, false)) (clock-snapshot_if_due see r)

  clock_decision-update :
      (see : Player F → List (Player F) → List (Player F)) (r : Room F W)
      → r.game_ended ≡ false
      → clocked
          (if should_finish_game r then (finish_game r, true) else (snapshot_if_due see r, false))
        ≡ clock_decision (match_clock r)
  unfolding clocked should_finish_game match_clock
  clock_decision-update see r h = clock_decide see (should_finish_game r) r h

module _ {F W : Type 0} (fl : Float F) (phys : Physics F W)
    (see : Player F → List (Player F) → List (Player F)) where
  clock_go :
      (b : Bool) (r : Room F W)
      → r.game_ended ≡ b
      → (let ticked : Room F W = record r { tick = r.tick + 1; current_tick = r.tick + 1 } in
          let played : Room F W = update_players fl phys (player_ids ticked) ticked in
          clocked (
            if b
            then (r, true)
            else if should_finish_game played
            then (finish_game played, true)
            else (snapshot_if_due see played, false)))
        ≡ (if b
            then (match_clock r, true)
            else clock_decision (record (match_clock r) { tick = r.tick + 1 }))
  unfolding match_clock clocked
  clock_go true r h = refl
  clock_go false r h =
      let ticked : Room F W = record r { tick = r.tick + 1; current_tick = r.tick + 1 } in
      let played : Room F W = update_players fl phys (player_ids ticked) ticked in
      let same : frame played ≡ frame ticked =
        frame-update_players fl phys (player_ids ticked) ticked in
      clock_decision-update see played (ap (λ (f : Frame F). f.game_ended) same ∙ h)
      ∙ ap
          (λ (f : Frame F). clock_decision (record {
            tick = f.tick;
            game_started = f.game_started;
            game_ended = f.game_ended;
            game_end_tick = f.game_end_tick;
            finish_calls = length f.finished;
          }))
          same

  -- `update` is a frame of the clock: the players, the inputs, the physics and the messages of a
  -- frame have no say in when the match ends, and onFinished is called at its end alone.
  pub update-clock_frame :
      (r : Room F W) → clocked (update fl phys see r) ≡ clock_frame (match_clock r)
  unfolding clocked update clock_frame match_clock
  update-clock_frame r = clock_go r.game_ended r refl
