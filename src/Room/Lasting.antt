-- ===== src/Room/Lasting.antt =====
-- roomserver/logic/room.go: a started match over the turns of its loop.
use demo_server.Prelude.{
  ℕ, suc, ◌+◌, ◌<◌, Bool, true, false, List, [], ◌∷◌, ◌≡◌, refl, ap, ◌∙◌, sym, ltb, leb,
  if◌then◌else◌, arith, length, dec_lt,
}
use demo_server.Float.{Float}
use demo_server.Room.State.{Player, Physics, Event, event_join, event_leave, event_input, Room}
use demo_server.Room.Join.{push_event, join, leave, push_input}
use demo_server.Room.Update.{update}
use demo_server.Room.Loop.{
  Turn, take_event, run_frame, call_join, call_leave, call_push_input, frames, take_from, turn,
  loop, ended_or,
}
use demo_server.Room.Lifetime.{MatchClock, match_clock, clock_frame, clock-handle_event}
use demo_server.Room.Ending.{clocked, update-clock_frame}

-- The clock of a running match after so many frames.
unfoldable pub clock_after : ℕ → MatchClock → MatchClock × Bool
clock_after n c =
    if leb c.game_end_tick (c.tick + n)
    then (
      record c { tick = c.game_end_tick; game_ended = true; finish_calls = suc c.finish_calls },
      true,
    )
    else (record c { tick = c.tick + n }, false)

-- The match is on, and its last frame is still to come.
abbrev pub IsRunning : MatchClock → Type 0
IsRunning c = (c.game_started ≡ true) × (c.game_ended ≡ false) × (c.tick < c.game_end_tick)

clock_frame_last :
    (c : MatchClock)
    → IsRunning c
    → c.tick + 1 ≡ c.game_end_tick
    → clock_frame c ≡ (
      record c { tick = c.game_end_tick; game_ended = true; finish_calls = suc c.finish_calls },
      true,
    )
unfolding clock_frame
clock_frame_last c (s, e, l) h = ground (arith, s, e, l, h)

clock_frame_inner :
    (c : MatchClock)
    → IsRunning c
    → c.tick + 1 < c.game_end_tick
    → clock_frame c ≡ (record c { tick = c.tick + 1 }, false)
unfolding clock_frame
clock_frame_inner c (s, e, l) h = ground (arith, s, e, l, h)

clock_after_zero : (c : MatchClock) → IsRunning c → clock_after 0 c ≡ (c, false)
unfolding clock_after
clock_after_zero c (s, e, l) = ground (arith, l)

clock_after_last :
    (c : MatchClock) (n : ℕ)
    → c.tick + 1 ≡ c.game_end_tick
    → clock_after (n + 1) c ≡ (
      record c { tick = c.game_end_tick; game_ended = true; finish_calls = suc c.finish_calls },
      true,
    )
unfolding clock_after
clock_after_last c n h = ground (arith, h)

clock_after_inner :
    (c : MatchClock) (n : ℕ)
    → clock_after n (record c { tick = c.tick + 1 }) ≡ clock_after (n + 1) c
unfolding clock_after
clock_after_inner c n = ground arith

module _ {F W : Type 0} where
  clock-pair :
      (b : Bool) (x y : Room F W × Bool) (r : Room F W)
      → match_clock x.0 ≡ match_clock r
      → match_clock y.0 ≡ match_clock r
      → (let o : Room F W × Bool = if b then x else y in match_clock o.0) ≡ match_clock r
  clock-pair true x y r p q = p
  clock-pair false x y r p q = q

  clock-push_event : (e : Event F) (r : Room F W) → match_clock (push_event e r).0 ≡ match_clock r
  unfolding push_event match_clock
  clock-push_event e r = clock-pair (ltb (length r.events) 256) _ _ r refl refl

  clock-join : (p : Player F) (r : Room F W) → match_clock (join p r).0 ≡ match_clock r
  unfolding join match_clock
  clock-join p r =
      let o : Room F W × Bool =
        push_event (event_join p true) (record r { join_slots = r.join_slots + 1 }) in
      let same : match_clock o.0 ≡ match_clock r = clock-push_event (event_join p true) _ in
      clock-pair r.join_closed (r, false) _ r refl
        (clock-pair (ltb r.max_players (r.join_slots + 1)) (r, false) _ r refl
          (clock-pair o.1 (o.0, true) _ r same same))

module _ {F W : Type 0} (fl : Float F) (phys : Physics F W)
    (see : Player F → List (Player F) → List (Player F)) where
  clock-take_from :
      (r : Room F W) (es : List (Event F))
      → r.game_started ≡ true
      → match_clock (take_from fl phys see r es) ≡ match_clock r
  unfolding match_clock
  clock-take_from r [] h = refl
  clock-take_from r (e ∷ es) h = clock-handle_event fl phys e (record r { events = es }) h

  -- A frame, and the turns after it.
  lasts_frame :
      (ts : List (Turn F)) (c : MatchClock)
      → ((r : Room F W) (d : MatchClock)
          → match_clock r ≡ d
          → IsRunning d
          → clocked (loop fl phys see ts r) ≡ clock_after (frames ts) d)
      → IsRunning c
      → (o : Room F W × Bool) → clocked o ≡ clock_frame c
      → clocked (ended_or fl phys see o (λ r'. loop fl phys see ts r'))
        ≡ clock_after (frames ts + 1) c
  unfolding clocked match_clock
  lasts_frame ts c ih run (r, b) h = elim (dec_lt (c.tick + 1) c.game_end_tick) [
    | yes l ↦ inner b (h ∙ clock_frame_inner c run l) l
    | no g ↦ last b (h ∙ clock_frame_last c run (omega (arith, g, run.2))) (omega (arith, g, run.2))
  ]
    where
      inner :
          (b : Bool)
          → clocked (r, b) ≡ (record c { tick = c.tick + 1 }, false)
          → c.tick + 1 < c.game_end_tick
          → clocked (ended_or fl phys see (r, b) (λ r'. loop fl phys see ts r'))
            ≡ clock_after (frames ts + 1) c
      inner true e l = absurd (ground (arith, ap (λ (o : MatchClock × Bool). o.1) e))
      inner false e l =
          ih r (record c { tick = c.tick + 1 }) (ap (λ (o : MatchClock × Bool). o.0) e)
            (run.0, run.1, l)
          ∙ clock_after_inner c (frames ts)

      last :
          (b : Bool)
          → clocked (r, b) ≡ (
            record c {
              tick = c.game_end_tick;
              game_ended = true;
              finish_calls = suc c.finish_calls;
            },
            true,
          )
          → c.tick + 1 ≡ c.game_end_tick
          → clocked (ended_or fl phys see (r, b) (λ r'. loop fl phys see ts r'))
            ≡ clock_after (frames ts + 1) c
      last true e l = e ∙ sym (clock_after_last c (frames ts) l)
      last false e l = absurd (ground (arith, ap (λ (o : MatchClock × Bool). o.1) e))

  lasts :
      (ts : List (Turn F)) (r : Room F W) (c : MatchClock)
      → match_clock r ≡ c
      → IsRunning c
      → clocked (loop fl phys see ts r) ≡ clock_after (frames ts) c
  unfolding loop turn clocked match_clock frames
  lasts [] r c h run = ap (λ (d : MatchClock). (d, false)) h ∙ sym (clock_after_zero c run)
  lasts (run_frame ∷ ts) r c h run =
      lasts_frame ts c (λ r' d e u. lasts ts r' d e u) run (update fl phys see r)
        (update-clock_frame fl phys see r ∙ ap clock_frame h)
  lasts (take_event ∷ ts) r c h run =
      lasts ts (take_from fl phys see r r.events) c
        (clock-take_from r r.events (ap (λ (d : MatchClock). d.game_started) h ∙ run.0) ∙ h) run
  lasts (call_join p ∷ ts) r c h run = lasts ts (join p r).0 c (clock-join p r ∙ h) run
  lasts (call_leave id ∷ ts) r c h run =
      lasts ts (leave id r).0 c ((unfold leave in clock-push_event (event_leave id) r) ∙ h) run
  lasts (call_push_input id i ∷ ts) r c h run =
      lasts ts (push_input id i r).0 c
        ((unfold push_input in clock-push_event (event_input id i) r) ∙ h) run

  -- From a match that is on and still has frames to play: whatever events, joins, leaves and inputs
  -- come between its frames, the loop ends itself exactly when the frame number reaches
  -- gameEndTick, at that frame, with the match marked as ended and onFinished called once more; with
  -- fewer frames the match is still on, and each frame has counted one.
  pub match_lasts :
      (ts : List (Turn F)) (r : Room F W)
      → IsRunning (match_clock r)
      → clocked (loop fl phys see ts r) ≡ clock_after (frames ts) (match_clock r)
  match_lasts ts r run = lasts ts r (match_clock r) refl run
