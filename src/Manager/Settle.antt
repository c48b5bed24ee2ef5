-- ===== src/Manager/Settle.antt =====
-- roomserver/logic/room_manager.go: finishRoom, the rewards of a match and the index without it.
use demo_server.Prelude.{
  ℕ, String, Bool, Option, none, some, List, [], ◌∷◌, map, ltb, if◌then◌else◌, ite, ℕ_discrete,
}
use demo_server.Prelude.Text.{string_discrete}
use demo_server.Prelude.Assoc.{lookup, delete}
use demo_server.Room.State.{Player, Room}
use demo_server.Manager.{Manager, Settlement}

abbrev pub kills_of : {F : Type 0} → Option (Player F) → ℕ
kills_of none = 0
kills_of (some p) = p.kill_count

module _ {F W : Type 0} where
  unfoldable pub kill_counts : Room F W → List ℕ → List ℕ
  kill_counts r ids = map (λ id. kills_of (lookup ℕ_discrete id r.players)) ids

abbrev pub drop_at : String → ℕ → List (ℕ × String) → Option String → List (ℕ × String)
drop_at id p index none = index
drop_at id p index (some at) = ite (string_discrete at id) (delete ℕ_discrete p index) index

-- The loop that takes the players of a room out of the index.
unfoldable pub drop_players : String → List ℕ → List (ℕ × String) → List (ℕ × String)
drop_players id [] index = index
drop_players id (p ∷ ps) index = drop_players id ps (drop_at id p index (lookup ℕ_discrete p index))

-- The coins and the experience of a match of two by their kills.
unfoldable pub reward_two : ℕ → ℕ → List ℕ × List ℕ
reward_two a b =
    if ltb b a
    then (1000 ∷ 300 ∷ [], 500 ∷ 200 ∷ [])
    else if ltb a b
    then (300 ∷ 1000 ∷ [], 200 ∷ 500 ∷ [])
    else (800 ∷ 800 ∷ [], 400 ∷ 400 ∷ [])

-- Any other number of players gets the reward for taking part.
unfoldable pub rewards : List ℕ → List ℕ × List ℕ
unfolding reward_two
rewards (a ∷ b ∷ []) = reward_two a b
rewards kills = (map (λ k. 300) kills, map (λ k. 200) kills)

unfoldable pub settlement : List ℕ → List ℕ → Settlement
unfolding rewards
settlement ids kills = record {
  player_ids = ids;
  kill_count = kills;
  coin = (rewards kills).0;
  exp = (rewards kills).1;
}

module _ {F W : Type 0} where
  -- `current` says whether the manager's room of this id is this very room. What the logicserver
  -- answers is only logged.
  unfoldable pub finish_room : Bool → Room F W → List ℕ → Manager F W → Manager F W
  unfolding kill_counts drop_players settlement
  finish_room current r [] m = m
  finish_room current r (p ∷ ps) m = record m {
    rooms = if current then delete string_discrete r.id m.rooms else m.rooms;
    player_rooms = drop_players r.id (p ∷ ps) m.player_rooms;
    settled = settlement (p ∷ ps) (kill_counts r (p ∷ ps)) ∷ m.settled;
  }
