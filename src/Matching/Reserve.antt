-- ===== src/Matching/Reserve.antt =====
-- matchserver/logic/matcher.go: `AllocateRoom` and the invariant of the matcher.
use demo_server.Prelude.{
  ℕ, ◌≤◌, ◌+◌, ◌%◌, ◌^◌, ◌≡◌, refl, String, Option, none, some, List, [], ◌==◌, ltb, if◌then◌else◌,
  arith, inl, inr, Option-cases, Bool-cases,
}
use demo_server.Prelude.Int.{pos}
use demo_server.Prelude.Assoc.{lookup, insert, lookup-insert, insert-IsMap, length-insert-le}
use demo_server.RoomToken
use demo_server.RoomToken.{Jwt, generate}
use demo_server.Matching.State.{
  ReservationKey, key_discrete, Reservation, RoomState, ServerState, Matcher,
}
use demo_server.Matching.Rooms.{update_room, put_key}
use demo_server.Matching.Allocate.{
  Env, Picked, all_full, no_random, picked, pick, complete, claims_for, reservation_for, after_pick,
  allocate_new, reuse_or, allocate_key, allocate_room, purge_expired_reservations,
}
use demo_server.Matching.Refs.{
  occurrences, ServerTag, tag, AllRooms, AllRooms-update, AllRooms-both, RoomsFit-update,
  occurrences-update,
}
use demo_server.Matching.Invariant.{Reservations, find, Mirrors, Names, Fits, Inv}
use demo_server.Matching.Purge.{purge-Inv, find-purge, live}
use demo_server.Matching.Pick.{Target, IsPick, Keeps, PickOk, pick-ok, pick-Keeps}

-- A room at the address is the target of the loop.
abbrev pub At : ℕ → String → ServerTag → RoomState → ServerTag → RoomState → Type 0
At ref mode s q t r = r.ref ≡ ref → Target mode s q t r

module _ (k : ReservationKey) (v : Reservation) where
  put-Mirrors :
      (m : Reservations) (r : RoomState)
      → find k m ≡ none
      → Mirrors m r
      → Mirrors (insert key_discrete k v m) (if r.ref == v.room then put_key k v r else r)
  put-Mirrors m r absent h j = ground (
    arith,
    h j,
    h k,
    lookup-insert key_discrete k j v m,
    lookup-insert key_discrete k j v r.reservations,
  )

  module _ (mode : String) (s : ServerTag) (q : RoomState) where
    put-Fits :
        (t : ServerTag) (r : RoomState)
        → Fits t r × (r.ref ≡ v.room → Target mode s q t r)
        → Fits t (if r.ref == v.room then put_key k v r else r)
    put-Fits t r h = ground (arith, h.0, h.1, length-insert-le key_discrete k v r.reservations)

    put-Names :
        v.key ≡ k
        → k.mode ≡ mode
        → v.room_id ≡ q.id
        → v.server_id ≡ s.id
        → v.server_addr ≡ s.addr
        → (t : ServerTag) (r : RoomState) → Names t r × (r.ref ≡ v.room → Target mode s q t r)
        → Names t (if r.ref == v.room then put_key k v r else r)
    put-Names e₀ e₁ e₂ e₃ e₄ t r h j w e =
        ground (arith, h.0 j w, h.1, lookup-insert key_discrete k j v r.reservations)

find_nil :
    (r : RoomState) → r.reservations ≡ [] → (k : ReservationKey) → find k r.reservations ≡ none
unfolding lookup
find_nil r e k = rw e

-- The matcher with the servers that the loop left, before the reservation is entered.
abbrev pub moved : Matcher → List ServerState → Matcher
moved m ss = record m {
  servers = ss;
  sequence = (m.sequence + 1) % 2 ^ 64;
  next_ref = m.next_ref + 1;
}

module _ (m : Matcher) (v : Inv m) where
  new_room-Mirrors :
      (t : ServerTag) (q : RoomState)
      → q.reservations ≡ []
      → q.ref ≡ m.next_ref
      → Mirrors m.reservations q
  new_room-Mirrors t q empty at k = elim (Option-cases (find k m.reservations)) [
    | inl absent ↦ rw absent (find_nil q empty k)
    | inr (w, there) ↦ ground (arith, find_nil q empty k, v.placed k w there, v.fresh w.room)
  ]

  new_room-Names :
      (t : ServerTag) (q : RoomState) → q.reservations ≡ [] → q.ref ≡ m.next_ref → Names t q
  new_room-Names t q empty at k w e = ground (arith, find_nil q empty k)

  moved-Inv :
      (mode : String) (s : ServerState) (r : RoomState) (ss : List ServerState)
      → IsPick m.next_ref mode m.servers s r ss
      → AllRooms Fits ss
      → AllRooms (λ t. Mirrors m.reservations) ss
      → AllRooms Names ss
      → Inv (moved m ss)
  moved-Inv mode s r ss p fits mirrors names = record {
    is_map = v.is_map;
    rooms_fit = p.rooms_fit v.rooms_fit;
    players_fit = fits;
    mirrors = mirrors;
    names = names;
    unique = elim p.old_or_new [
      | inl old ↦ λ x. omega (arith, old x, v.unique x)
      | inr (at, new) ↦ λ x. ground (arith, new x, v.unique x, v.fresh x)
    ];
    fresh = elim p.old_or_new [
      | inl old ↦ λ x h. omega (arith, old x, v.fresh x)
      | inr (at, new) ↦ λ x h. ground (arith, new x, v.fresh x)
    ];
    placed = elim p.old_or_new [
      | inl old ↦ λ k w e. omega (arith, old w.room, v.placed k w e)
      | inr (at, new) ↦ λ k w e. ground (arith, new w.room, v.placed k w e, v.fresh w.room)
    ];
  }

-- The reservation entered in both maps, in a room that has a place for it.
put-Inv :
    (m : Matcher) (k : ReservationKey) (v : Reservation) (s : ServerTag) (q : RoomState)
    → find k m.reservations ≡ none
    → AllRooms (At v.room k.mode s q) m.servers
    → 1 ≤ occurrences v.room m.servers
    → v.key ≡ k
    → v.room_id ≡ q.id
    → v.server_id ≡ s.id
    → v.server_addr ≡ s.addr
    → Inv m
    → Inv (record m {
      servers = update_room v.room (put_key k v) m.servers;
      reservations = insert key_discrete k v m.reservations;
    })
put-Inv m k v s q absent target found e₀ e₁ e₂ e₃ i = record {
  is_map = insert-IsMap key_discrete k v m.reservations i.is_map;
  rooms_fit = RoomsFit-update v.room (put_key k v) m.servers i.rooms_fit;
  players_fit =
      AllRooms-update (λ t r. Fits t r × At v.room k.mode s q t r) Fits v.room (put_key k v)
        m.servers (put-Fits k v k.mode s q)
        (AllRooms-both Fits (At v.room k.mode s q) m.servers i.players_fit target);
  mirrors =
      AllRooms-update (λ t. Mirrors m.reservations)
        (λ t. Mirrors (insert key_discrete k v m.reservations)) v.room (put_key k v) m.servers
        (λ t r. put-Mirrors k v m.reservations r absent) i.mirrors;
  names =
      AllRooms-update (λ t r. Names t r × At v.room k.mode s q t r) Names v.room (put_key k v)
        m.servers (put-Names k v k.mode s q e₀ refl e₁ e₂ e₃)
        (AllRooms-both Names (At v.room k.mode s q) m.servers i.names target);
  unique = λ x. omega (arith, i.unique x, same x);
  fresh = λ x h. omega (arith, i.fresh x h, same x);
  placed = λ j w e. ground (
    arith,
    lookup-insert key_discrete k j v m.reservations,
    i.placed j w,
    i.unique v.room,
    same w.room,
  );
}
  where
    same :
        (x : ℕ)
        → occurrences x (update_room v.room (put_key k v) m.servers) ≡ occurrences x m.servers
    same x = occurrences-update v.room (put_key k v) x m.servers (λ r. refl)

module _ (jwt : Jwt) (env : Env) where
  after_pick-Inv :
      (m : Matcher) (key : ReservationKey) (p : Picked)
      → Inv m
      → find key m.reservations ≡ none
      → PickOk m.next_ref key.mode m.servers p
      → Keeps Fits p
      → Keeps (λ t. Mirrors m.reservations) p
      → Keeps Names p
      → Inv (after_pick jwt env m key p).0
  unfolding reservation_for
  after_pick-Inv m key all_full v absent good fits mirrors names = v
  after_pick-Inv m key no_random v absent good fits mirrors names = v
  after_pick-Inv m key (picked s r ss) v absent good fits mirrors names =
      completed (
        generate jwt m.token_secret (claims_for env key s r seq) (pos m.token_expire) env.token_now)
    where
      seq : ℕ
      seq = (m.sequence + 1) % 2 ^ 64

      moved_ok : Inv (moved m ss)
      moved_ok = moved-Inv m v key.mode s r ss good fits mirrors names

      completed :
          (signed : RoomToken.Result String)
          → Inv (complete (moved m ss) (reservation_for env m key s r seq) signed).0
      completed (RoomToken.err e) = moved_ok
      completed (RoomToken.ok token) =
          put-Inv (moved m ss) key (reservation_for env m key s r seq token) (tag s) r absent
            good.target good.found refl refl refl refl moved_ok

  allocate_new-Inv :
      (m : Matcher) (key : ReservationKey)
      → Inv m
      → find key m.reservations ≡ none
      → Inv (allocate_new jwt env m key).0
  unfolding allocate_new
  allocate_new-Inv m key v absent =
      after_pick-Inv m key (pick env.random m.next_ref key.mode m.servers) v absent
        (pick-ok env.random m.next_ref key.mode m.servers v.unique
          (v.fresh m.next_ref (omega arith)) v.rooms_fit)
        (pick-Keeps Fits env.random m.next_ref key.mode (λ t q empty at. ground arith) m.servers
          v.players_fit)
        (pick-Keeps (λ t. Mirrors m.reservations) env.random m.next_ref key.mode
          (new_room-Mirrors m v) m.servers v.mirrors)
        (pick-Keeps Names env.random m.next_ref key.mode (new_room-Names m v) m.servers v.names)

  -- After the purge a reservation that is found has not run out.
  allocate_key-Inv :
      (m : Matcher) (key : ReservationKey)
      → Inv m
      → find key m.reservations ≡ live env.now (find key m.reservations)
      → Inv (allocate_key jwt env m key).0
  unfolding allocate_key
  allocate_key-Inv m key v purged = by_cases (find key m.reservations) refl
    where
      by_cases :
          (o : Option Reservation)
          → find key m.reservations ≡ o
          → Inv (reuse_or jwt env m o (allocate_new jwt env m key)).0
      by_cases none e = allocate_new-Inv m key v e
      by_cases (some r) e = elim (Bool-cases (ltb env.now r.expire_at)) [
        | inl alive ↦ rw alive v
        | inr over ↦ absurd (ground arith)
      ]

  find-purge_again :
      (m : Matcher) (k : ReservationKey)
      → Inv m
      → find k (purge_expired_reservations env.now m).reservations
        ≡ live env.now (find k (purge_expired_reservations env.now m).reservations)
  find-purge_again m k v = rw (find-purge env.now m k v) (twice (find k m.reservations))
    where
      twice : (o : Option Reservation) → live env.now o ≡ live env.now (live env.now o)
      twice none = refl
      twice (some r) = ground arith

  -- A call of AllocateRoom keeps the invariant, whatever its answer.
  pub allocate_room-Inv :
      (m : Matcher) (player : ℕ) (mode : String)
      → Inv m
      → Inv (allocate_room jwt env m player mode).0
  unfolding allocate_room
  allocate_room-Inv m player mode v = elim (Bool-cases (player == 0)) [
    | inl anonymous ↦ rw anonymous v
    | inr known ↦ rw known (
        allocate_key-Inv (purge_expired_reservations env.now m) _ (purge-Inv env.now m v)
          (find-purge_again m _ v))
  ]
