-- ===== src/Matching/Invariant.antt =====
-- What holds of the matcher between two calls, and that a write of one key keeps it.
use demo_server.Prelude.{
  ℕ, ◌≤◌, ◌≡◌, refl, Option, none, some, List, ◌==◌, if◌then◌else◌, All, length, arith, ◌⊎◌,
}
use demo_server.Prelude.Assoc.{lookup, delete, IsMap, lookup-delete, delete-IsMap, length-delete-le}
use demo_server.Matching.State.{ReservationKey, key_discrete, Reservation, RoomState, Matcher}
use demo_server.Matching.Rooms.{update_room, drop_key}
use demo_server.Matching.Refs.{
  occurrences, ServerTag, AllRooms, AllRooms-update, RoomsFit, RoomsFit-update, occurrences-update,
}

abbrev pub Reservations : Type 0
Reservations = List (ReservationKey × Reservation)

abbrev pub find : ReservationKey → Reservations → Option Reservation
find = lookup key_discrete

-- A reservation, as seen by the room at an address.
abbrev pub at_room : ℕ → Option Reservation → Option Reservation
at_room ref none = none
at_room ref (some v) = if v.room == ref then some v else none

-- The room's map is the part of the matcher's map that points to the room.
abbrev pub Mirrors : Reservations → RoomState → Type 0
Mirrors m r = (k : ReservationKey) → find k r.reservations ≡ at_room r.ref (find k m)

-- A reservation names the room and the server that it stands in, and has the room's mode.
abbrev pub Names : ServerTag → RoomState → Type 0
Names t r =
    (k : ReservationKey) (v : Reservation)
    → find k r.reservations ≡ some v
    → (v.key ≡ k)
      × (k.mode ≡ r.mode)
      × (v.room_id ≡ r.id)
      × (v.server_id ≡ t.id)
      × (v.server_addr ≡ t.addr)

-- No room holds more reservations than its server allows.
abbrev pub Fits : ServerTag → RoomState → Type 0
Fits t r = length r.reservations ≤ t.max_players

pub record Inv (m : Matcher) : Type 0 where
  pub is_map : IsMap key_discrete m.reservations
  pub rooms_fit : All RoomsFit m.servers
  pub players_fit : AllRooms Fits m.servers
  pub mirrors : AllRooms (λ t. Mirrors m.reservations) m.servers
  pub names : AllRooms Names m.servers
  pub unique : (ref : ℕ) → occurrences ref m.servers ≤ 1
  pub fresh : (ref : ℕ) → m.next_ref ≤ ref → occurrences ref m.servers ≡ 0
  pub placed :
      (k : ReservationKey) (v : Reservation)
      → find k m.reservations ≡ some v
      → occurrences v.room m.servers ≡ 1

-- The matcher with a key dropped from its map and from the room that the reservation points to.
abbrev pub dropped : ReservationKey → ℕ → Matcher → Matcher
dropped k ref m = record m {
  reservations = delete key_discrete k m.reservations;
  servers = update_room ref (drop_key k) m.servers;
}

-- The key is not in the map, or is there with a pointer to the room.
abbrev pub PointsTo : ReservationKey → ℕ → Reservations → Type 0
PointsTo k ref m = (find k m ≡ none) ⊎ ((v : Reservation) × (find k m ≡ some v) × (v.room ≡ ref))

module _ (k : ReservationKey) (ref : ℕ) (m : Reservations) (points : PointsTo k ref m) where
  drop-Mirrors :
      (r : RoomState)
      → Mirrors m r
      → Mirrors (delete key_discrete k m) (if r.ref == ref then drop_key k r else r)
  drop-Mirrors r h j =
      ground (
        arith,
        h j,
        lookup-delete key_discrete k j m,
        lookup-delete key_discrete k j r.reservations,
      )

drop-Fits :
    (k : ReservationKey) (ref : ℕ) (t : ServerTag) (r : RoomState)
    → Fits t r
    → Fits t (if r.ref == ref then drop_key k r else r)
drop-Fits k ref t r h = ground (arith, length-delete-le key_discrete k r.reservations)

drop-Names :
    (k : ReservationKey) (ref : ℕ) (t : ServerTag) (r : RoomState)
    → Names t r
    → Names t (if r.ref == ref then drop_key k r else r)
drop-Names k ref t r h j v e = ground (arith, h j v, lookup-delete key_discrete k j r.reservations)

pub dropped-Inv :
    (k : ReservationKey) (ref : ℕ) (m : Matcher)
    → PointsTo k ref m.reservations
    → Inv m
    → Inv (dropped k ref m)
dropped-Inv k ref m points v = record {
  is_map = delete-IsMap key_discrete k m.reservations v.is_map;
  rooms_fit = RoomsFit-update ref (drop_key k) m.servers v.rooms_fit;
  players_fit =
      AllRooms-update Fits Fits ref (drop_key k) m.servers (drop-Fits k ref) v.players_fit;
  mirrors =
      AllRooms-update (λ t. Mirrors m.reservations)
        (λ t. Mirrors (delete key_discrete k m.reservations)) ref (drop_key k) m.servers
        (λ t. drop-Mirrors k ref m.reservations points) v.mirrors;
  names = AllRooms-update Names Names ref (drop_key k) m.servers (drop-Names k ref) v.names;
  unique =
      λ x. omega (arith, v.unique x, occurrences-update ref (drop_key k) x m.servers (λ r. refl));
  fresh = λ x h.
      omega (arith, v.fresh x h, occurrences-update ref (drop_key k) x m.servers (λ r. refl));
  placed = λ j w e. omega (
    arith,
    v.placed j w (ground (arith, lookup-delete key_discrete k j m.reservations)),
    occurrences-update ref (drop_key k) w.room m.servers (λ r. refl),
  );
}
