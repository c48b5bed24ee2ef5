-- ===== src/Room/Tests.antt =====
-- A room of two players with whole numbers for its coordinates, and the theorems at work on it.
use demo_server.Prelude.{
  ℕ, ◌+◌, ◌≤◌, ◌<◌, Bool, true, false, none, List, [], ◌∷◌, ◌≡◌, refl, arith, ℕ_discrete,
}
use demo_server.Prelude.Int.{pos}
use demo_server.Prelude.Assoc.{lookup, insert, delete}
use demo_server.Prelude.Text.{string_discrete}
use demo_server.Room.Movement.{sanitize_player_input}
use demo_server.Room.Update.{update, update_players}
use demo_server.Room.Evolve.{AllEvolve}
use demo_server.Room.Simulated.{evolve-update_players}
use demo_server.Room.State.{Player, SyncState, AuthoritativeInput, Room}
use demo_server.Room.Join.{no_input, join}
use demo_server.Room.Inputs.{next_available_input_tick, input_for_tick}
use demo_server.Room.Samples.{whole_numbers, open_field, see_all, visitor, small_room}
use demo_server.Room.Loop.{
  Turn, take_event, run_frame, call_join, call_leave, call_push_input, frames, loop,
}
use demo_server.Room.Lifetime.{match_clock, clock_frame}
use demo_server.Room.Ending.{clocked, update-clock_frame}
use demo_server.Room.Lasting.{clock_after, match_lasts}
use demo_server.Room.Capacity.{SoundRoom, loop-SoundRoom}
use demo_server.Room.Join.{handle_join_event}
use demo_server.Room.Start.{opening, StartsWhenFull, handle_join_event-StartsWhenFull}
use demo_server.Room.Fire.{apply_fire_damage}
use demo_server.Room.Score.{Scores, points, is_fatal, apply_fire_damage-Scores}
use demo_server.Room.Schedule.{next_available_input_tick-IsNextOpen, IsNextOpen, held_is_harmless}
use demo_server.Room.Waiting.{
  SyncEvent, arriving, frame_of, sync_event, sync_events, sync_events-input_for_tick,
}

abbrev both_join : List (Turn ℕ)
both_join = call_join (visitor 1) ∷ call_join (visitor 2) ∷ take_event ∷ take_event ∷ []

abbrev full_room : Room ℕ Unit
unfolding loop small_room
full_room = (loop whole_numbers open_field see_all both_join small_room).0

-- Two joins and two frames end the match of two frames; a third frame is not run.
abbrev shots : List (Turn ℕ)
shots =
    run_frame
    ∷ call_push_input 1 none
    ∷ take_event
    ∷ run_frame
    ∷ call_join (visitor 3)
    ∷ run_frame
    ∷ []

ends : (loop whole_numbers open_field see_all shots full_room).1 ≡ true
unfolding loop full_room small_room lookup insert ℕ_discrete string_discrete sanitize_player_input
ends = refl

update-clock_frame_example :
    clocked (update whole_numbers open_field see_all full_room)
    ≡ clock_frame (match_clock full_room)
update-clock_frame_example = update-clock_frame whole_numbers open_field see_all full_room

match_lasts_example :
    clocked (loop whole_numbers open_field see_all shots full_room)
    ≡ clock_after (frames shots) (match_clock full_room)
unfolding match_clock full_room small_room loop lookup insert ℕ_discrete string_discrete
match_lasts_example =
    match_lasts whole_numbers open_field see_all shots full_room (refl, refl, omega arith)

small_room-IsSound : SoundRoom small_room
unfolding small_room
small_room-IsSound = record {
  within = omega arith;
  is_map = tt;
  keys = tt;
  healthy = tt;
  apart = tt;
}

loop-SoundRoom_example : SoundRoom (loop whole_numbers open_field see_all both_join small_room).0
loop-SoundRoom_example =
    loop-SoundRoom whole_numbers open_field see_all both_join small_room small_room-IsSound

-- A queue with one input that waits for frame 6, and the last used one of frame 4.
abbrev step : Bool → AuthoritativeInput ℕ
unfolding no_input
step fire = record (no_input whole_numbers) { move_x = 1; fire = fire }

abbrev waiting : SyncState ℕ
unfolding step
waiting = record {
  inputs = (6, step true) ∷ [];
  last_input = step true;
  has_last_input = true;
  last_input_tick = 4;
  last_applied_tick = 4;
  last_queued_input_tick = 6;
}

next_available_input_tick-IsNextOpen_example :
    IsNextOpen 5 6 (5 + (2 + 1)) ((6, step true) ∷ []) (next_available_input_tick 5 2 waiting)
unfolding waiting
next_available_input_tick-IsNextOpen_example = next_available_input_tick-IsNextOpen 5 2 waiting

-- Two more inputs come in, and frame 6 passes, before frame 7.
abbrev in_between : List (SyncEvent ℕ)
in_between = arriving 5 1 (step false) ∷ frame_of 6 ∷ arriving 6 1 (step false) ∷ []

sync_events-input_for_tick_example :
    (5 < 7)
    × (7 ≤ 5 + (2 + 1))
    × ((input_for_tick whole_numbers 7 2 (
          sync_events whole_numbers 2 in_between
            (sync_event whole_numbers 2 (arriving 5 1 (step true)) waiting))).1
        ≡ record (step true) { client_tick = pos 7 })
    × ((input_for_tick whole_numbers 7 2 (
          sync_events whole_numbers 2 in_between
            (sync_event whole_numbers 2 (arriving 5 1 (step true)) waiting))).2
        ≡ true)
unfolding waiting next_available_input_tick lookup ℕ_discrete
sync_events-input_for_tick_example =
    sync_events-input_for_tick whole_numbers 2 5 1 7 waiting (step true) in_between refl
      (tt, (omega arith, (tt, tt)))

held_is_harmless_example :
    ((input_for_tick whole_numbers 5 2 waiting).0 ≡ waiting)
    × ((input_for_tick whole_numbers 5 2 waiting).1.fire ≡ false)
    × ((input_for_tick whole_numbers 5 2 waiting).1.jump ≡ false)
    × (4 + 2 < 5 → (input_for_tick whole_numbers 5 2 waiting).1 ≡ no_input whole_numbers)
unfolding waiting input_for_tick lookup ℕ_discrete
held_is_harmless_example = held_is_harmless whole_numbers 5 2 waiting refl

handle_join_event-StartsWhenFull_example :
    StartsWhenFull 2 0 2
      (opening (handle_join_event whole_numbers open_field (visitor 1) true small_room))
unfolding small_room
handle_join_event-StartsWhenFull_example =
    handle_join_event-StartsWhenFull whole_numbers open_field (visitor 1) true small_room
      (refl, refl, omega arith)

-- Two players, of whom the second has 20 points left.
abbrev victim : Player ℕ
victim = record (visitor 2) { hp = 20; spawn_id = "south" }

abbrev duel : Room ℕ Unit
unfolding small_room
duel = record small_room { players = (1, visitor 1) ∷ (2, victim) ∷ [] }

apply_fire_damage-Scores_example :
    Scores 1 2
      (points (is_fatal 0 victim))
      duel
      (apply_fire_damage whole_numbers open_field (visitor 1) victim duel)
unfolding duel small_room lookup ℕ_discrete
apply_fire_damage-Scores_example =
    apply_fire_damage-Scores whole_numbers open_field (visitor 1) victim duel
      (λ e. absurd (omega (arith, e))) refl refl

-- A room for two with one player in it, who leaves while another join waits: afterwards two more
-- joins are accepted, three for two places, and the last of them is refused by the room.
abbrev crowd : List (Turn ℕ)
crowd =
    call_join (visitor 1)
    ∷ take_event
    ∷ call_leave 1
    ∷ call_join (visitor 2)
    ∷ take_event
    ∷ call_join (visitor 3)
    ∷ []

abbrev crowded : Room ℕ Unit
unfolding loop small_room
crowded = (loop whole_numbers open_field see_all crowd small_room).0

over_admitted : (join (visitor 4) crowded).1 ≡ true
unfolding crowded loop small_room lookup insert delete join ℕ_discrete string_discrete
over_admitted = refl

evolve-update_players_example :
    AllEvolve
      ((1, visitor 1) ∷ (2, victim) ∷ [])
      (update_players whole_numbers open_field (1 ∷ 2 ∷ []) duel).players
unfolding duel
evolve-update_players_example =
    evolve-update_players whole_numbers open_field (1 ∷ 2 ∷ []) duel (refl, (refl, tt))
