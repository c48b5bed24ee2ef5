-- ===== src/Matching/Rooms.antt =====
-- matchserver/logic/matcher.go: the methods on one room, one server and the list of servers.
use demo_server.Prelude.{
  ℕ, ◌/◌, String, Bool, List, [], ◌∷◌, ◌++◌, Option, none, some, ◌&&◌, ltb, leb, ◌==◌, not,
  if◌then◌else◌, length, select, ite,
}
use demo_server.Prelude.Text.{string_discrete, hex}
use demo_server.Prelude.Assoc.{insert, delete}
use Prim.Native.String.{◌++◌ as str_append}
use demo_server.Matching.State.{
  RoomState, ServerState, Reservation, ReservationKey, key_discrete, AllocateResult,
}

unfoldable pub reservation_count : RoomState → ℕ
reservation_count r = length r.reservations

unfoldable pub to_allocate_result : Reservation → AllocateResult
to_allocate_result r = record {
  room_id = r.room_id;
  server_id = r.server_id;
  server_addr = r.server_addr;
  match_id = r.match_id;
  room_token = r.room_token;
  expire_at = r.expire_at / 1_000_000;
}

-- The loop of `findAvailableRoom`: the first room of the mode that is not full.
unfoldable pub find_available : String → ℕ → List RoomState → Option RoomState
unfolding reservation_count
find_available mode limit [] = none
find_available mode limit (r ∷ rs) =
    let rest = find_available mode limit rs in
    ite (string_discrete r.mode mode) (if ltb (reservation_count r) limit then some r else rest)
      rest

unfoldable pub find_available_room : String → ServerState → Option RoomState
unfolding find_available
find_available_room mode s = find_available mode s.max_players s.rooms

-- The random bytes are `none` where the read of the random source fails.
unfoldable pub new_room_id : String → Option (List ℕ) → Option String
new_room_id server_id none = none
new_room_id server_id (some bytes) = some (str_append server_id (str_append "-" (hex bytes)))

pub data Created : Type 0 where
  at_limit random_failed : Created
  created : ServerState → RoomState → Created

abbrev pub add_room : ServerState → ℕ → String → Option String → Created
add_room s ref mode none = random_failed
add_room s ref mode (some id) =
    let room : RoomState = record { ref = ref; id = id; mode = mode; reservations = [] } in
    created (record s { rooms = s.rooms ++ room ∷ [] }) room

unfoldable pub create_room : Option (List ℕ) → ℕ → String → ServerState → Created
unfolding new_room_id
create_room random ref mode s =
    if ltb 0 s.max_rooms && leb s.max_rooms (length s.rooms)
    then at_limit
    else add_room s ref mode (new_room_id s.id random)

-- What a write through a pointer to a room does: `f` on the room at the address `ref`.
unfoldable pub at_ref : ℕ → (RoomState → RoomState) → List RoomState → List RoomState
at_ref ref f [] = []
at_ref ref f (r ∷ rs) = (if r.ref == ref then f r else r) ∷ at_ref ref f rs

unfoldable pub update_room : ℕ → (RoomState → RoomState) → List ServerState → List ServerState
unfolding at_ref
update_room ref f [] = []
update_room ref f (s ∷ ss) = record s { rooms = at_ref ref f s.rooms } ∷ update_room ref f ss

abbrev pub drop_key : ReservationKey → RoomState → RoomState
drop_key k r = record r { reservations = delete key_discrete k r.reservations }

abbrev pub put_key : ReservationKey → Reservation → RoomState → RoomState
put_key k v r = record r { reservations = insert key_discrete k v r.reservations }

abbrev pub is_used : RoomState → Bool
unfolding reservation_count
is_used r = not (reservation_count r == 0)

unfoldable pub prune_empty_rooms : List ServerState → List ServerState
unfolding reservation_count
prune_empty_rooms [] = []
prune_empty_rooms (s ∷ ss) = record s { rooms = select is_used s.rooms } ∷ prune_empty_rooms ss
