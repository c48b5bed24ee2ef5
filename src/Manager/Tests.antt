-- ===== src/Manager/Tests.antt =====
-- A roomserver with room for one match, and the theorems at work on it.
use demo_server.Prelude.{
  ℕ, String, true, Option, some, List, [], ◌∷◌, ◌≡◌, arith, ℕ_discrete, if◌then◌else◌,
}
use demo_server.Prelude.Int.{pos}
use demo_server.Prelude.Assoc.{lookup}
use demo_server.Room.Loop.{take_event, run_frame}
use demo_server.Room.Samples.{whole_numbers, open_field, see_all, visitor, corner, small_room}
use demo_server.Manager.{Manager, equip_response, new_room_manager}
use demo_server.Manager.Settle.{drop_players}
use demo_server.Manager.Rewards.{IsSettled, finish_room-IsSettled}
use demo_server.Manager.Settle.{finish_room}
use demo_server.Manager.{Settlement}
use demo_server.Manager.Index.{lookup-drop_players, is_listed, unless_in}
use demo_server.Manager.Limit.{
  Step, joining, leaving, finishing, running, steps, IsWithinLimit, steps-IsWithinLimit,
}

abbrev new_field : String → Option (Unit {0})
new_field id = some tt

abbrev empty_manager : Manager ℕ Unit
unfolding new_room_manager
empty_manager =
    new_room_manager (pos 1) (pos 2) (pos 20) (pos 20) (pos 2) "map" "hash" (pos 100_000_000)

abbrev a_match : List (Step ℕ Unit)
a_match =
    joining (equip_response true (pos 1)) "r" (visitor 1)
    ∷ joining (equip_response true (pos 1)) "s" (visitor 3)
    ∷ joining (equip_response true (pos 1)) "r" (visitor 2)
    ∷ running "r" take_event
    ∷ running "r" run_frame
    ∷ leaving 2 ""
    ∷ finishing true small_room (1 ∷ [])
    ∷ []

steps-IsWithinLimit_example :
    IsWithinLimit
      (steps whole_numbers open_field see_all (corner 0) new_field a_match empty_manager)
unfolding empty_manager
steps-IsWithinLimit_example =
    steps-IsWithinLimit whole_numbers open_field see_all (corner 0) new_field a_match empty_manager
      (omega arith)

lookup-drop_players_example :
    lookup ℕ_discrete 2 (drop_players "r" (1 ∷ 2 ∷ []) ((1, "r") ∷ (2, "s") ∷ [])) ≡ (
      if is_listed 2 (1 ∷ 2 ∷ [])
      then unless_in "r" (lookup ℕ_discrete 2 ((1, "r") ∷ (2, "s") ∷ []))
      else lookup ℕ_discrete 2 ((1, "r") ∷ (2, "s") ∷ []))
lookup-drop_players_example = lookup-drop_players "r" (1 ∷ 2 ∷ []) 2 ((1, "r") ∷ (2, "s") ∷ [])

finish_room-IsSettled_example :
    (s : Settlement) × ((finish_room true small_room (1 ∷ 2 ∷ []) empty_manager).settled
      ≡ s ∷ empty_manager.settled)
    × IsSettled small_room (1 ∷ 2 ∷ []) s
finish_room-IsSettled_example = finish_room-IsSettled small_room true 1 (2 ∷ []) empty_manager
