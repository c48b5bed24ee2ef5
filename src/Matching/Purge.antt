-- ===== src/Matching/Purge.antt =====
-- `purgeExpiredReservations` and `pruneEmptyRooms`: what they remove and what they keep.
use demo_server.Prelude.{
  ℕ, ◌≡◌, refl, Option, none, some, List, [], ◌∷◌, ltb, if◌then◌else◌, true, All, arith, ◌⊎◌, inl,
  inr, Bool-cases,
}
use demo_server.Prelude.Assoc.{lookup, delete, IsMap, lookup-delete, All-lookup}
use demo_server.Matching.State.{ReservationKey, key_discrete, Reservation, RoomState, Matcher}
use demo_server.Matching.Rooms.{reservation_count, is_used, prune_empty_rooms}
use demo_server.Matching.Allocate.{purge_entry, purge_loop, purge_expired_reservations}
use demo_server.Matching.Refs.{
  AllRooms-map, AllRooms-prune, RoomsFit-prune, occurrences-prune_le, occurrences-prune,
}
use demo_server.Matching.Invariant.{
  Reservations, find, at_room, Mirrors, Names, Fits, Inv, dropped-Inv, PointsTo,
}

abbrev Entries : Type 0
Entries = List (ReservationKey × Reservation)

-- An entry of the snapshot that the loop ranges over, against the map as it is now.
abbrev Current : Reservations → ReservationKey × Reservation → Type 0
Current m e = (find e.0 m ≡ none) ⊎ (find e.0 m ≡ some e.1)

Current-delete :
    (k : ReservationKey) (m : Reservations) (e : ReservationKey × Reservation)
    → Current m e
    → Current (delete key_discrete k m) e
Current-delete k m (j, v) h = ground (arith, lookup-delete key_discrete k j m)

Current-purge_entry :
    (now : ℕ) (d : ReservationKey × Reservation) (m : Matcher) (es : Entries)
    → All (Current m.reservations) es
    → All (Current (purge_entry now d m).reservations) es
unfolding purge_entry
Current-purge_entry now d m [] h = tt
Current-purge_entry now (k, v) m (e ∷ es) h =
    (ground (arith, Current-delete k m.reservations e h.0), Current-purge_entry now (k, v) m es h.1)

purge_entry-Inv :
    (now : ℕ) (e : ReservationKey × Reservation) (m : Matcher)
    → Current m.reservations e
    → Inv m
    → Inv (purge_entry now e m)
unfolding purge_entry
purge_entry-Inv now (k, r) m c v = elim (Bool-cases (ltb now r.expire_at)) [
  | inl live ↦ rw live v
  | inr over ↦ rw over (dropped-Inv k r.room m points v)
]
  where
    points : PointsTo k r.room m.reservations
    points = elim c [ inl absent ↦ inl absent | inr there ↦ inr (r, there, refl) ]

purge_loop-Inv :
    (now : ℕ) (es : Entries) (m : Matcher)
    → All (Current m.reservations) es
    → Inv m
    → Inv (purge_loop now es m)
unfolding purge_loop
purge_loop-Inv now [] m c v = v
purge_loop-Inv now (e ∷ es) m c v =
    purge_loop-Inv now es (purge_entry now e m) (Current-purge_entry now e m es c.1)
      (purge_entry-Inv now e m c.0 v)

used_of_placed :
    (m : Reservations) (k : ReservationKey) (v : Reservation)
    → find k m ≡ some v
    → (r : RoomState) → Mirrors m r
    → r.ref ≡ v.room
    → is_used r ≡ true
unfolding lookup reservation_count
used_of_placed m k v e r h p = used r.reservations (h k)
  where
    used :
        (qs : Reservations)
        → find k qs ≡ at_room r.ref (find k m)
        → is_used (record r { reservations = qs }) ≡ true
    used [] g = ground arith
    used (q ∷ qs) g = ground arith

-- Pruning the rooms without a reservation loses no room that a reservation points to.
pub pruned-Inv : (m : Matcher) → Inv m → Inv (record m { servers = prune_empty_rooms m.servers })
pruned-Inv m v = record {
  is_map = v.is_map;
  rooms_fit = RoomsFit-prune m.servers v.rooms_fit;
  players_fit = AllRooms-prune Fits m.servers v.players_fit;
  mirrors = AllRooms-prune (λ t. Mirrors m.reservations) m.servers v.mirrors;
  names = AllRooms-prune Names m.servers v.names;
  unique = λ x. omega (arith, v.unique x, occurrences-prune_le x m.servers);
  fresh = λ x h. omega (arith, v.fresh x h, occurrences-prune_le x m.servers);
  placed = λ k w e. omega (
    arith,
    v.placed k w e,
    occurrences-prune w.room m.servers (
        AllRooms-map (λ t. Mirrors m.reservations) (λ t r. r.ref ≡ w.room → is_used r ≡ true)
          m.servers (λ t. used_of_placed m.reservations k w e) v.mirrors),
  );
}

Current-of_map : (m : Reservations) → IsMap key_discrete m → All (Current m) m
Current-of_map m h = All-lookup key_discrete m (Current m) (λ k v e. inr e) h

pub purge-Inv : (now : ℕ) (m : Matcher) → Inv m → Inv (purge_expired_reservations now m)
unfolding purge_expired_reservations
purge-Inv now m v =
    pruned-Inv (purge_loop now m.reservations m)
      (purge_loop-Inv now m.reservations m (Current-of_map m.reservations v.is_map) v)

-- What is left of a reservation at a time.
abbrev pub live : ℕ → Option Reservation → Option Reservation
live now none = none
live now (some v) = if ltb now v.expire_at then some v else none

-- What the loop leaves of a key's reservation, by the snapshot's entry of the key.
abbrev kept : ℕ → Option Reservation → Option Reservation → Option Reservation
kept now none held = held
kept now (some r) held = if ltb now r.expire_at then held else none

find-purge_loop :
    (now : ℕ) (es : Entries) (m : Matcher) (k : ReservationKey)
    → IsMap key_discrete es
    → find k (purge_loop now es m).reservations ≡ kept now (find k es) (find k m.reservations)
unfolding purge_loop purge_entry lookup
find-purge_loop now [] m k u = refl
find-purge_loop now ((j, r) ∷ es) m k u = ground (
  arith,
  find-purge_loop now es (purge_entry now (j, r) m) k u.1,
  lookup-delete key_discrete j k m.reservations,
)

-- The purge removes a reservation exactly when its time has come, and changes no other.
pub find-purge :
    (now : ℕ) (m : Matcher) (k : ReservationKey)
    → Inv m
    → find k (purge_expired_reservations now m).reservations ≡ live now (find k m.reservations)
unfolding purge_expired_reservations
find-purge now m k v = ground (arith, find-purge_loop now m.reservations m k v.is_map)
