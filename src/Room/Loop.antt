-- ===== src/Room/Loop.antt =====
-- roomserver/logic/room.go: the loop of a room, and the calls that reach it meanwhile.
use demo_server.Prelude.{ℕ, ◌+◌, Bool, true, false, Option, List, [], ◌∷◌}
use demo_server.Float.{Float}
use demo_server.Room.State.{Player, PlayerInput, Physics, Event, Room}
use demo_server.Room.Join.{join, leave, push_input}
use demo_server.Room.Update.{update, handle_event}

-- What happens next to a room: its loop takes an event or runs a frame, or another goroutine calls
-- Join, Leave or PushInput.
pub data Turn (F : Type 0) : Type 0 where
  take_event run_frame : Turn F
  call_join : Player F → Turn F
  call_leave : ℕ → Turn F
  call_push_input : ℕ → Option (PlayerInput F) → Turn F

module _ {F : Type 0} where
  unfoldable pub frames : List (Turn F) → ℕ
  frames [] = 0
  frames (run_frame ∷ ts) = frames ts + 1
  frames (take_event ∷ ts) = frames ts
  frames (call_join p ∷ ts) = frames ts
  frames (call_leave id ∷ ts) = frames ts
  frames (call_push_input id i ∷ ts) = frames ts

module _ {F W : Type 0} (fl : Float F) (phys : Physics F W)
    (see : Player F → List (Player F) → List (Player F)) where
  abbrev pub take_from : Room F W → List (Event F) → Room F W
  take_from r [] = r
  take_from r (e ∷ es) = handle_event fl phys e (record r { events = es })

  -- One turn; `true` ends the loop.
  unfoldable pub turn : Turn F → Room F W → Room F W × Bool
  unfolding update handle_event join leave push_input
  turn take_event r = (take_from r r.events, false)
  turn run_frame r = update fl phys see r
  turn (call_join p) r = ((join p r).0, false)
  turn (call_leave id) r = ((leave id r).0, false)
  turn (call_push_input id i) r = ((push_input id i r).0, false)

  abbrev pub close_physics : Room F W → Room F W
  close_physics r = record r { physics = (phys.close r.physics).0 }

  abbrev pub ended_or : Room F W × Bool → (Room F W → Room F W × Bool) → Room F W × Bool
  ended_or (r, true) next = (close_physics r, true)
  ended_or (r, false) next = next r

  -- The loop over the turns that it gets until it is stopped or ends itself; the answer says
  -- whether it ended itself.
  unfoldable pub loop : List (Turn F) → Room F W → Room F W × Bool
  unfolding turn
  loop [] r = (close_physics r, false)
  loop (t ∷ ts) r = ended_or (turn t r) (λ r'. loop ts r')
