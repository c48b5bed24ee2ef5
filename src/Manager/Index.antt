-- ===== src/Manager/Index.antt =====
-- roomserver/logic/room_manager.go: what JoinRoom and finishRoom do to the index of the players.
use demo_server.Prelude.{
  ℕ, String, Bool, true, false, Option, none, some, List, [], ◌∷◌, ◌==◌, ◌||◌, ◌≡◌, ◌⊎◌, inl, inr,
  refl, ap, ◌∙◌, arith, ite, if◌then◌else◌, ℕ_discrete, leb, length,
}
use demo_server.Prelude.Text.{string_discrete}
use demo_server.Prelude.Assoc.{lookup, insert, lookup-delete}
use demo_server.Room.State.{Vector3, Player, Room}
use demo_server.Room.Join.{join}
use demo_server.Manager.{
  Manager, ManagerError, EquipAnswer, equip_error, no_response, equip_response, already_started,
  room_limit_reached, put_room, equipped, get_or_create_room, room_or_create, create_over,
  after_join, join_found, join_room,
}
use demo_server.Manager.Settle.{drop_players, drop_at}

abbrev pub is_listed : ℕ → List ℕ → Bool
is_listed q [] = false
is_listed q (p ∷ ps) = p == q || is_listed q ps

-- An entry of the index unless it is for this room.
abbrev pub unless_in : String → Option String → Option String
unless_in id none = none
unless_in id (some at) = ite (string_discrete at id) none (some at)

unless_in-unless_in :
    (id : String) (o : Option String) → unless_in id (unless_in id o) ≡ unless_in id o
unless_in-unless_in id none = refl
unless_in-unless_in id (some at) = ground arith

lookup-drop_at :
    (id : String) (p q : ℕ) (index : List (ℕ × String)) (o : Option String)
    → lookup ℕ_discrete p index ≡ o
    → lookup ℕ_discrete q (drop_at id p index o)
      ≡ (if p == q then unless_in id (lookup ℕ_discrete q index) else lookup ℕ_discrete q index)
lookup-drop_at id p q index none h = ground (arith, h)
lookup-drop_at id p q index (some at) h = ground (arith, h, lookup-delete ℕ_discrete p q index)

-- finishRoom takes exactly the players that it lists out of the index, each only where the index
-- has it in the finished room; everyone else stays where it is.
pub lookup-drop_players :
    (id : String) (ps : List ℕ) (q : ℕ) (index : List (ℕ × String))
    → lookup ℕ_discrete q (drop_players id ps index) ≡ (
        if is_listed q ps
        then unless_in id (lookup ℕ_discrete q index)
        else lookup ℕ_discrete q index)
unfolding drop_players
lookup-drop_players id [] q index = refl
lookup-drop_players id (p ∷ ps) q index =
    let next = drop_at id p index (lookup ℕ_discrete p index) in
    lookup-drop_players id ps q next
    ∙ go (p == q) (is_listed q ps) (lookup ℕ_discrete q next)
        (lookup-drop_at id p q index (lookup ℕ_discrete p index) refl)
  where
    go :
        (b c : Bool) (o : Option String)
        → o ≡ (if b then unless_in id (lookup ℕ_discrete q index) else lookup ℕ_discrete q index)
        → (if c then unless_in id o else o)
          ≡ (if b || c then unless_in id (lookup ℕ_discrete q index) else lookup ℕ_discrete q index)
    go true true o e = ap (unless_in id) e ∙ unless_in-unless_in id (lookup ℕ_discrete q index)
    go true false o e = e
    go false true o e = ap (unless_in id) e
    go false false o e = e

module _ {F W : Type 0} where
  -- What the index is after JoinRoom, by its error.
  abbrev pub index_after : Option ManagerError → ℕ → String → Manager F W → List (ℕ × String)
  index_after none player id m = insert ℕ_discrete player id m.player_rooms
  index_after (some e) player id m = m.player_rooms

  index-after_join :
      (id : String) (p : Player F) (m : Manager F W) (o : Room F W × Bool)
      → (after_join id p m o).0.player_rooms ≡ index_after (after_join id p m o).1 p.id id m
  unfolding put_room
  index-after_join id p m (r, true) = refl
  index-after_join id p m (r, false) = refl

  index-join_found :
      (id : String) (p : Player F) (m : Manager F W) (o : Manager F W × (ManagerError ⊎ Room F W))
      → o.0.player_rooms ≡ m.player_rooms
      → (join_found id p o).0.player_rooms ≡ index_after (join_found id p o).1 p.id id m
  index-join_found id p m (m', inl e) h = h
  index-join_found id p m (m', inr r) h = go r.join_closed
    where
      late :
          (o : Manager F W × Option ManagerError)
          → index_after o.1 p.id id m' ≡ index_after o.1 p.id id m
      late (n, none) = ap (insert ℕ_discrete p.id id) h
      late (n, some e) = h

      go :
          (b : Bool)
          → (let o : Manager F W × Option ManagerError =
                if b then (m', some already_started) else after_join id p m' (join p r) in
              o.0.player_rooms ≡ index_after o.1 p.id id m)
      go true = h
      go false = index-after_join id p m' (join p r) ∙ late (after_join id p m' (join p r))

  index-create_over :
      (id : String) (m : Manager F W) (o : Option W)
      → (create_over id m o).0.player_rooms ≡ m.player_rooms
  unfolding put_room
  index-create_over id m none = refl
  index-create_over id m (some w) = refl

  index-room_or_create :
      (new_world : String → Option W) (id : String) (m : Manager F W) (o : Option (Room F W))
      → (room_or_create new_world id m o).0.player_rooms ≡ m.player_rooms
  index-room_or_create new_world id m (some r) = refl
  index-room_or_create new_world id m none = go (leb m.max_rooms (length m.rooms))
    where
      go :
          (b : Bool)
          → (let o : Manager F W × (ManagerError ⊎ Room F W) =
                if b then (m, inl room_limit_reached) else create_over id m (new_world id) in
              o.0.player_rooms)
            ≡ m.player_rooms
      go true = refl
      go false = index-create_over id m (new_world id)

  index-get_or_create_room :
      (new_world : String → Option W) (id : String) (m : Manager F W)
      → (get_or_create_room new_world id m).0.player_rooms ≡ m.player_rooms
  unfolding get_or_create_room
  index-get_or_create_room new_world id m =
      index-room_or_create new_world id m (lookup string_discrete id m.rooms)

  -- JoinRoom enters the player into the index under the room exactly when it answers no error; with
  -- an error the index is as it was.
  pub index-join_room :
      (zero : Vector3 F) (new_world : String → Option W) (a : EquipAnswer) (id : String)
      (p : Player F) (m : Manager F W)
      → (join_room zero new_world a id p m).0.player_rooms
        ≡ index_after (join_room zero new_world a id p m).1 p.id id m
  unfolding join_room
  index-join_room zero new_world equip_error id p m = refl
  index-join_room zero new_world no_response id p m = refl
  index-join_room zero new_world (equip_response false gun) id p m = refl
  index-join_room zero new_world (equip_response true gun) id p m =
      index-join_found id (equipped zero gun p) m (get_or_create_room new_world id m)
        (index-get_or_create_room new_world id m)
