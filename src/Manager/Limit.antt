-- ===== src/Manager/Limit.antt =====
-- roomserver/logic/room_manager.go: how many rooms there are, over the calls of the manager and the
-- turns of its rooms.
use demo_server.Prelude.{
  ℕ, ◌+◌, ◌≤◌, String, Bool, true, false, Option, none, some, List, [], ◌∷◌, ◌≡◌, ◌⊎◌, inl, inr,
  refl, arith, ite, if◌then◌else◌, ℕ_discrete, leb, length, not, ◌&&◌,
}
use demo_server.Prelude.Text.{string_discrete, is_empty}
use demo_server.Prelude.Assoc.{
  lookup, delete, lookup-insert, length-insert_old, length-insert_new, length-delete-le,
}
use demo_server.Float.{Float}
use demo_server.Room.State.{Vector3, Player, PlayerInput, Physics, Room}
use demo_server.Room.Join.{join, push_input}
use demo_server.Room.Loop.{Turn, turn}
use demo_server.Manager.{
  Manager, ManagerError, EquipAnswer, equip_error, no_response, equip_response, already_started,
  room_limit_reached, put_room, room_over, equipped, get_or_create_room, room_or_create,
  create_over, after_join, join_found, join_room, leave_in, leave_from, leave_room, room_at,
  player_room, push_at, push_player_input,
}
use demo_server.Manager.Settle.{finish_room}

-- What reaches the manager: its calls, and the turns of its rooms.
pub data Step (F W : Type 0) : Type 0 where
  joining : EquipAnswer → String → Player F → Step F W
  leaving : ℕ → String → Step F W
  pushing : ℕ → Option (PlayerInput F) → Step F W
  finishing : Bool → Room F W → List ℕ → Step F W
  running : String → Turn F → Step F W

module _ {F W : Type 0} (fl : Float F) (phys : Physics F W)
    (see : Player F → List (Player F) → List (Player F)) (zero : Vector3 F)
    (new_world : String → Option W) where
  abbrev pub run_room : String → Turn F → Manager F W → Option (Room F W) → Manager F W
  run_room id t m none = m
  run_room id t m (some r) = put_room id (turn fl phys see t r).0 m

  unfoldable pub step : Step F W → Manager F W → Manager F W
  unfolding join_room leave_room push_player_input finish_room put_room turn
  step (joining a id p) m = (join_room zero new_world a id p m).0
  step (leaving p id) m = leave_room p id m
  step (pushing p i) m = (push_player_input p i m).0
  step (finishing current r ids) m = finish_room current r ids m
  step (running id t) m = run_room id t m (lookup string_discrete id m.rooms)

  unfoldable pub steps : List (Step F W) → Manager F W → Manager F W
  unfolding step
  steps [] m = m
  steps (s ∷ ss) m = steps ss (step s m)

module _ {F W : Type 0} where
  abbrev pub IsWithinLimit : Manager F W → Type 0
  IsWithinLimit m = length m.rooms ≤ m.max_rooms

  put_room-IsWithinLimit :
      (id : String) (r s : Room F W) (m : Manager F W)
      → lookup string_discrete id m.rooms ≡ some s
      → IsWithinLimit m
      → IsWithinLimit (put_room id r m)
  unfolding put_room
  put_room-IsWithinLimit id r s m h w =
      omega (arith, w, length-insert_old string_discrete id r s m.rooms h)

  create_over-IsWithinLimit :
      (id : String) (m : Manager F W) (o : Option W)
      → lookup string_discrete id m.rooms ≡ none
      → length m.rooms + 1 ≤ m.max_rooms
      → IsWithinLimit (create_over id m o).0
  unfolding put_room
  create_over-IsWithinLimit id m none h l = omega (arith, l)
  create_over-IsWithinLimit id m (some w) h l =
      omega (arith, l, length-insert_new string_discrete id (room_over m id w) m.rooms h)

  room_or_create-IsWithinLimit :
      (new_world : String → Option W) (id : String) (m : Manager F W) (o : Option (Room F W))
      → lookup string_discrete id m.rooms ≡ o
      → IsWithinLimit m
      → IsWithinLimit (room_or_create new_world id m o).0
  room_or_create-IsWithinLimit new_world id m (some r) h w = w
  room_or_create-IsWithinLimit new_world id m none h w = go (leb m.max_rooms (length m.rooms)) refl
    where
      go :
          (b : Bool)
          → leb m.max_rooms (length m.rooms) ≡ b
          → (let o : Manager F W × (ManagerError ⊎ Room F W) =
                if b then (m, inl room_limit_reached) else create_over id m (new_world id) in
              IsWithinLimit o.0)
      go true e = w
      go false e = create_over-IsWithinLimit id m (new_world id) h (ground (arith, e))

  -- The room that JoinRoom goes on with is in the map.
  abbrev IsFoundIn : String → Manager F W × (ManagerError ⊎ Room F W) → Type 0
  IsFoundIn id (m, inl e) = Unit
  IsFoundIn id (m, inr r) = lookup string_discrete id m.rooms ≡ some r

  create_over-IsFoundIn :
      (id : String) (m : Manager F W) (o : Option W) → IsFoundIn id (create_over id m o)
  unfolding put_room
  create_over-IsFoundIn id m none = tt
  create_over-IsFoundIn id m (some w) =
      ground (arith, lookup-insert string_discrete id id (room_over m id w) m.rooms)

  room_or_create-IsFoundIn :
      (new_world : String → Option W) (id : String) (m : Manager F W) (o : Option (Room F W))
      → lookup string_discrete id m.rooms ≡ o
      → IsFoundIn id (room_or_create new_world id m o)
  room_or_create-IsFoundIn new_world id m (some r) h = h
  room_or_create-IsFoundIn new_world id m none h = go (leb m.max_rooms (length m.rooms))
    where
      go :
          (b : Bool)
          → (let o : Manager F W × (ManagerError ⊎ Room F W) =
                if b then (m, inl room_limit_reached) else create_over id m (new_world id) in
              IsFoundIn id o)
      go true = tt
      go false = create_over-IsFoundIn id m (new_world id)

  after_join-IsWithinLimit :
      (id : String) (p : Player F) (m : Manager F W) (s : Room F W) (o : Room F W × Bool)
      → lookup string_discrete id m.rooms ≡ some s
      → IsWithinLimit m
      → IsWithinLimit (after_join id p m o).0
  unfolding put_room
  after_join-IsWithinLimit id p m s (r, true) h w = put_room-IsWithinLimit id r s m h w
  after_join-IsWithinLimit id p m s (r, false) h w = put_room-IsWithinLimit id r s m h w

  join_found-IsWithinLimit :
      (id : String) (p : Player F) (o : Manager F W × (ManagerError ⊎ Room F W))
      → IsFoundIn id o
      → IsWithinLimit o.0
      → IsWithinLimit (join_found id p o).0
  join_found-IsWithinLimit id p (m, inl e) h w = w
  join_found-IsWithinLimit id p (m, inr r) h w = go r.join_closed
    where
      go :
          (b : Bool)
          → (let o : Manager F W × Option ManagerError =
                if b then (m, some already_started) else after_join id p m (join p r) in
              IsWithinLimit o.0)
      go true = w
      go false = after_join-IsWithinLimit id p m r (join p r) h w

  join_room-IsWithinLimit :
      (zero : Vector3 F) (new_world : String → Option W) (a : EquipAnswer) (id : String)
      (p : Player F) (m : Manager F W)
      → IsWithinLimit m
      → IsWithinLimit (join_room zero new_world a id p m).0
  unfolding join_room get_or_create_room
  join_room-IsWithinLimit zero new_world equip_error id p m w = w
  join_room-IsWithinLimit zero new_world no_response id p m w = w
  join_room-IsWithinLimit zero new_world (equip_response false gun) id p m w = w
  join_room-IsWithinLimit zero new_world (equip_response true gun) id p m w =
      join_found-IsWithinLimit id (equipped zero gun p) (get_or_create_room new_world id m)
        (room_or_create-IsFoundIn new_world id m _ refl)
        (room_or_create-IsWithinLimit new_world id m _ refl w)

  leave_in-IsWithinLimit :
      (player : ℕ) (id : String) (m : Manager F W) (o : Option (Room F W))
      → lookup string_discrete id m.rooms ≡ o
      → IsWithinLimit m
      → IsWithinLimit (leave_in player id m o)
  leave_in-IsWithinLimit player id m none h w = w
  leave_in-IsWithinLimit player id m (some r) h w = put_room-IsWithinLimit id _ r m h w

  leave_from-IsWithinLimit :
      (player : ℕ) (id : String) (m : Manager F W) (o : Option String)
      → IsWithinLimit m
      → IsWithinLimit (leave_from player id m o)
  leave_from-IsWithinLimit player id m none w = w
  leave_from-IsWithinLimit player id m (some current) w =
      go (not (is_empty id) && not (ite (string_discrete current id) true false))
    where
      left : Manager F W
      left = record m { player_rooms = delete ℕ_discrete player m.player_rooms }

      go :
          (b : Bool)
          → IsWithinLimit (
              if b
              then m
              else leave_in player current left (lookup string_discrete current left.rooms))
      go true = w
      go false = leave_in-IsWithinLimit player current left _ refl w

  -- What is found through the index is in the map.
  push_at-IsWithinLimit :
      (player : ℕ) (i : Option (PlayerInput F)) (m : Manager F W) (o : Option String)
      → IsWithinLimit m
      → IsWithinLimit (push_at player i m (room_at m o)).0
  push_at-IsWithinLimit player i m none w = w
  push_at-IsWithinLimit player i m (some id) w = go (lookup string_discrete id m.rooms) refl
    where
      go :
          (o : Option (Room F W))
          → lookup string_discrete id m.rooms ≡ o
          → IsWithinLimit (push_at player i m (elim o [ none ↦ none | some r ↦ some (id, r) ])).0
      go none h = w
      go (some r) h = put_room-IsWithinLimit id (push_input player i r).0 r m h w

  finish_room-IsWithinLimit :
      (current : Bool) (r : Room F W) (ids : List ℕ) (m : Manager F W)
      → IsWithinLimit m
      → IsWithinLimit (finish_room current r ids m)
  unfolding finish_room
  finish_room-IsWithinLimit current r [] m w = w
  finish_room-IsWithinLimit true r (p ∷ ps) m w =
      omega (arith, w, length-delete-le string_discrete r.id m.rooms)
  finish_room-IsWithinLimit false r (p ∷ ps) m w = w

module _ {F W : Type 0} (fl : Float F) (phys : Physics F W)
    (see : Player F → List (Player F) → List (Player F)) (zero : Vector3 F)
    (new_world : String → Option W) where
  run_room-IsWithinLimit :
      (id : String) (t : Turn F) (m : Manager F W) (o : Option (Room F W))
      → lookup string_discrete id m.rooms ≡ o
      → IsWithinLimit m
      → IsWithinLimit (run_room fl phys see zero new_world id t m o)
  run_room-IsWithinLimit id t m none h w = w
  run_room-IsWithinLimit id t m (some r) h w = put_room-IsWithinLimit id _ r m h w

  step-IsWithinLimit :
      (s : Step F W) (m : Manager F W)
      → IsWithinLimit m
      → IsWithinLimit (step fl phys see zero new_world s m)
  unfolding step leave_room push_player_input player_room
  step-IsWithinLimit (joining a id p) m w = join_room-IsWithinLimit zero new_world a id p m w
  step-IsWithinLimit (leaving p id) m w =
      leave_from-IsWithinLimit p id m (lookup ℕ_discrete p m.player_rooms) w
  step-IsWithinLimit (pushing p i) m w =
      push_at-IsWithinLimit p i m (lookup ℕ_discrete p m.player_rooms) w
  step-IsWithinLimit (finishing current r ids) m w = finish_room-IsWithinLimit current r ids m w
  step-IsWithinLimit (running id t) m w = run_room-IsWithinLimit id t m _ refl w

  -- A manager that is within its limit of rooms stays so over any sequence of calls, of finished
  -- rooms and of turns of its rooms.
  pub steps-IsWithinLimit :
      (ss : List (Step F W)) (m : Manager F W)
      → IsWithinLimit m
      → IsWithinLimit (steps fl phys see zero new_world ss m)
  unfolding steps
  steps-IsWithinLimit [] m w = w
  steps-IsWithinLimit (s ∷ ss) m w =
      steps-IsWithinLimit ss (step fl phys see zero new_world s m) (step-IsWithinLimit s m w)
