-- ===== src/Session.antt =====
-- roomserver/service/session.go: what waits to be written to a connection. A select with several
-- cases ready takes any of them: `pick` is its choice between a closed session and a free place.
use demo_server.Prelude.{
  ℕ, ◌+◌, String, Bool, true, false, Option, none, some, List, [], ◌∷◌, ◌++◌, ltb, ◌&&◌, not,
  length, if◌then◌else◌, ◌||◌,
}
use demo_server.Message.{Message}
mod Queue
mod Latest
mod Tests

-- `taken` lists what the write loop took from the queue, in order;
-- `closed` says whether closeCh is closed.
pub record Session : Type 0 where
  pub id : String
  pub capacity : ℕ
  pub send_ch : List Message
  pub snapshot_ch : Option Message
  pub closed : Bool
  pub player_id : ℕ
  pub room_id : String
  pub taken : List Message

unfoldable pub new_session : String → ℕ → Session
new_session id capacity = record {
  id = id;
  capacity = capacity;
  send_ch = [];
  snapshot_ch = none;
  closed = false;
  player_id = 0;
  room_id = "";
  taken = [];
}

unfoldable pub set_player_of : ℕ → String → Session → Session
set_player_of player room s = record s { player_id = player; room_id = room }

abbrev pub enqueue : Message → Session → Session
enqueue m s = record s { send_ch = s.send_ch ++ m ∷ [] }

unfoldable pub send_message : Bool → Message → Session → Session × Bool
send_message pick m s =
    if ltb (length s.send_ch) s.capacity && (not s.closed || pick)
    then (enqueue m s, true)
    else (s, false)

-- One select that offers a snapshot; none is its default case.
abbrev pub offer_to : Bool → Message → Session → Option Message → Session × Option Bool
offer_to pick m s (some old) = if s.closed then (s, some false) else (s, none)
offer_to pick m s none =
    if not s.closed || pick then (record s { snapshot_ch = some m }, some true) else (s, some false)

unfoldable pub offer_snapshot : Bool → Message → Session → Session × Option Bool
offer_snapshot pick m s = offer_to pick m s s.snapshot_ch

unfoldable pub drop_snapshot : Session → Session
drop_snapshot s = record s { snapshot_ch = none }

unfoldable pub close_session : Session → Session
close_session s = record s { closed = true }

-- A turn of the write loop: the channel that it takes from, and whether the write goes well.
pub data WriteTurn : Type 0 where
  from_send from_snapshot : Bool → WriteTurn

abbrev pub after_write_message : Bool → Session → Session
after_write_message ok s = if ok then s else close_session s

abbrev pub take_send : Bool → Session → List Message → Session
take_send ok s [] = s
take_send ok s (m ∷ ms) =
    after_write_message ok (record s { send_ch = ms; taken = s.taken ++ m ∷ [] })

abbrev pub take_snapshot : Bool → Session → Option Message → Session
take_snapshot ok s none = s
take_snapshot ok s (some m) = after_write_message ok (record s { snapshot_ch = none })

unfoldable pub write_turn : WriteTurn → Session → Session
unfolding close_session
write_turn (from_send ok) s = take_send ok s s.send_ch
write_turn (from_snapshot ok) s = take_snapshot ok s s.snapshot_ch

unfoldable pub write_turns : List WriteTurn → Session → Session
unfolding write_turn
write_turns [] s = s
write_turns (t ∷ ts) s = write_turns ts (write_turn t s)

-- The second offer, whose default case gives the snapshot up.
abbrev pub settle_offer : Session × Option Bool → Session × Bool
settle_offer (s, none) = (s, false)
settle_offer (s, some sent) = (s, sent)

abbrev pub second_offer :
    Bool → List WriteTurn → List WriteTurn → Message → Session × Option Bool → Session × Bool
second_offer pick before after m (s, some sent) = (s, sent)
second_offer pick before after m (s, none) =
    settle_offer (offer_snapshot pick m (write_turns after (drop_snapshot (write_turns before s))))

-- SendSnapshot with the turns of the write loop that fall between its three selects.
unfoldable pub send_snapshot :
    Bool → Bool → List WriteTurn → List WriteTurn → Message → Session → Session × Bool
unfolding offer_snapshot drop_snapshot write_turns
send_snapshot pick pick' before after m s =
    second_offer pick' before after m (offer_snapshot pick m s)
