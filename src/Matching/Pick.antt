-- ===== src/Matching/Pick.antt =====
-- matchserver/logic/matcher.go: the loop of `allocateLocked` and the room that it answers with.
use demo_server.Prelude.{
  ℕ, ◌≤◌, ◌<◌, ◌+◌, ◌≡◌, refl, String, Option, none, some, List, [], ◌∷◌, ◌++◌, ◌==◌, if◌then◌else◌,
  All, All-append, All-map, arith, ◌⊎◌, inl, inr, length, length-append,
}
use demo_server.Matching.State.{RoomState, ServerState}
use demo_server.Matching.Rooms.{
  find_available, find_available_room, Created, at_limit, random_failed, created, create_room,
}
use demo_server.Matching.Allocate.{Picked, all_full, no_random, picked, or_create, pick}
use demo_server.Matching.Refs.{
  count_ref, occurrences, ServerTag, tag, AllRooms, All-of_count_zero, AllRooms-of_occurrences_zero,
  count_ref-append, RoomsFit,
}

-- What a room at the picked address must be: the picked room, on its server, with a free place.
abbrev pub Target : String → ServerTag → RoomState → ServerTag → RoomState → Type 0
Target mode s r t q =
    (length q.reservations < t.max_players)
    × (q.mode ≡ mode)
    × (q.id ≡ r.id)
    × (t.id ≡ s.id)
    × (t.addr ≡ s.addr)

-- One more room at the address `ref`.
abbrev pub added : ℕ → ℕ → ℕ
added ref x = if ref == x then 1 else 0

pub record IsPick (ref : ℕ) (mode : String) (ss : List ServerState) (s : ServerState)
    (r : RoomState) (ss' : List ServerState) : Type 0 where
  pub rooms_fit : All RoomsFit ss → All RoomsFit ss'
  pub target : AllRooms (λ t q. q.ref ≡ r.ref → Target mode (tag s) r t q) ss'
  pub found : 1 ≤ occurrences r.ref ss'
  pub old_or_new :
      ((x : ℕ) → occurrences x ss' ≡ occurrences x ss)
      ⊎ ((r.ref ≡ ref) × ((x : ℕ) → occurrences x ss' ≡ occurrences x ss + added ref x))

hit_or_rest :
    (mode : String) (limit : ℕ) (q : RoomState) (qs : List RoomState) (r : RoomState)
    → find_available mode limit (q ∷ qs) ≡ some r
    → ((q ≡ r) × (length q.reservations < limit) × (q.mode ≡ mode))
      ⊎ (find_available mode limit qs ≡ some r)
unfolding find_available
hit_or_rest mode limit q qs r e = ground arith

-- The room that the search finds, among rooms with different addresses.
find_available_lem :
    (mode : String) (limit : ℕ) (rs : List RoomState) (r : RoomState)
    → find_available mode limit rs ≡ some r
    → count_ref r.ref rs ≤ 1
    → (1 ≤ count_ref r.ref rs)
      × All
          (λ q. q.ref ≡ r.ref → (length q.reservations < limit) × (q.mode ≡ mode) × (q.id ≡ r.id))
          rs
unfolding find_available count_ref
find_available_lem mode limit [] r e u = cc
find_available_lem mode limit (q ∷ qs) r e u = elim (hit_or_rest mode limit q qs r e) [
  | inl (same, room, mode_ok) ↦ ground (
    arith,
    All-of_count_zero r.ref (λ q. (length q.reservations < limit) × (q.mode ≡ mode) × (q.id ≡ r.id))
        qs (ground arith),
  )
  | inr later ↦ ground (arith, find_available_lem mode limit qs r later)
]

-- `createRoom` adds an empty room at the end, and only below the limit.
create_room_lem :
    (random : Option (List ℕ)) (ref : ℕ) (mode : String) (s s' : ServerState) (r : RoomState)
    → create_room random ref mode s ≡ created s' r
    → (r.ref ≡ ref)
      × (r.mode ≡ mode)
      × (r.reservations ≡ [])
      × (s' ≡ record s { rooms = s.rooms ++ r ∷ [] })
      × ((0 < s.max_rooms) → length s.rooms < s.max_rooms)
unfolding create_room
create_room_lem none ref mode s s' r e = ground arith
create_room_lem (some bytes) ref mode s s' r e = ground arith

module _ (ref : ℕ) (mode : String) (s : ServerState) (ss : List ServerState) where
  found_IsPick :
      (r : RoomState)
      → find_available_room mode s ≡ some r
      → ((x : ℕ) → occurrences x (s ∷ ss) ≤ 1)
      → IsPick ref mode (s ∷ ss) s r (s ∷ ss)
  unfolding find_available_room occurrences
  found_IsPick r e u = record {
    rooms_fit = λ h. h;
    target = (
      All-map _ (λ q. q.ref ≡ r.ref → Target mode (tag s) r (tag s) q) s.rooms
          (λ q h p. ((h p).0, (h p).1, (h p).2, refl, refl)) here.1,
      AllRooms-of_occurrences_zero r.ref (Target mode (tag s) r) ss
          (omega (arith, u r.ref, here.0)),
    );
    found = omega (arith, here.0);
    old_or_new = inl (λ x. refl);
  }
    where
      here :
          (1 ≤ count_ref r.ref s.rooms)
          × All
              (λ q.
                q.ref ≡ r.ref
                → (length q.reservations < s.max_players) × (q.mode ≡ mode) × (q.id ≡ r.id))
              s.rooms
      here = find_available_lem mode s.max_players s.rooms r e (omega (arith, u r.ref))

  created_IsPick :
      (r : RoomState)
      → r.ref ≡ ref
      → r.mode ≡ mode
      → r.reservations ≡ []
      → ((0 < s.max_rooms) → length s.rooms < s.max_rooms)
      → (0 < s.max_players)
      → occurrences ref (s ∷ ss) ≡ 0
      → let s' = record s { rooms = s.rooms ++ r ∷ [] } in IsPick ref mode (s ∷ ss) s' r (s' ∷ ss)
  unfolding occurrences
  created_IsPick r at md empty room pos u = record {
    rooms_fit = λ h. ((omega (arith, h.0, room h.0.0, length-append s.rooms (r ∷ []))), h.1);
    target = (
      All-append (λ q. q.ref ≡ r.ref → Target mode (tag s) r (tag s) q) s.rooms (r ∷ [])
          (All-of_count_zero r.ref (Target mode (tag s) r (tag s)) s.rooms (ground arith))
          (λ p. (ground arith, md, refl, refl, refl), tt),
      AllRooms-of_occurrences_zero r.ref (Target mode (tag s) r) ss (ground arith),
    );
    found = ground (arith, count_ref-append r.ref s.rooms (r ∷ []));
    old_or_new = inr (at, λ x. ground (arith, count_ref-append x s.rooms (r ∷ [])));
  }

  later_IsPick :
      (t : ServerState) (r : RoomState) (ss' : List ServerState)
      → ((x : ℕ) → occurrences x (s ∷ ss) ≤ 1)
      → occurrences ref (s ∷ ss) ≡ 0
      → IsPick ref mode ss t r ss'
      → IsPick ref mode (s ∷ ss) t r (s ∷ ss')
  unfolding occurrences
  later_IsPick t r ss' u z p = record {
    rooms_fit = λ h. (h.0, p.rooms_fit h.1);
    target = (
      All-of_count_zero r.ref (Target mode (tag t) r (tag s)) s.rooms (absent p.old_or_new),
      p.target,
    );
    found = omega (arith, p.found);
    old_or_new = elim p.old_or_new [
      | inl old ↦ inl (λ x. omega (arith, old x))
      | inr (at, new) ↦ inr (at, λ x. omega (arith, new x))
    ];
  }
    where
      absent :
          ((x : ℕ) → occurrences x ss' ≡ occurrences x ss)
            ⊎ ((r.ref ≡ ref) × ((x : ℕ) → occurrences x ss' ≡ occurrences x ss + added ref x))
          → count_ref r.ref s.rooms ≡ 0
      absent (inl old) = omega (arith, old r.ref, p.found, u r.ref)
      absent (inr (at, new)) = rw at (omega (arith, z))

-- A property that an empty new room has is kept by the loop.
abbrev pub Keeps : (ServerTag → RoomState → Type 0) → Picked → Type 0
Keeps P (picked s r ss') = AllRooms P ss'
Keeps P all_full = Unit {0}
Keeps P no_random = Unit {0}

abbrev pub PickOk : ℕ → String → List ServerState → Picked → Type 0
PickOk ref mode ss (picked s r ss') = IsPick ref mode ss s r ss'
PickOk ref mode ss all_full = Unit {0}
PickOk ref mode ss no_random = Unit {0}

module _ (random : Option (List ℕ)) (ref : ℕ) (mode : String) (s : ServerState)
    (ss : List ServerState) (u : (x : ℕ) → occurrences x (s ∷ ss) ≤ 1)
    (z : occurrences ref (s ∷ ss) ≡ 0) (fit : RoomsFit s) where
  or_create_ok :
      (found : Option RoomState) (made : Created) (rest : Picked)
      → find_available_room mode s ≡ found
      → create_room random ref mode s ≡ made
      → PickOk ref mode ss rest
      → PickOk ref mode (s ∷ ss) (or_create s ss rest made found)
  or_create_ok (some r) made rest f c p = found_IsPick ref mode s ss r f u
  or_create_ok none random_failed rest f c p = tt
  or_create_ok none at_limit all_full f c p = tt
  or_create_ok none at_limit no_random f c p = tt
  or_create_ok none at_limit (picked t r ss') f c p = later_IsPick ref mode s ss t r ss' u z p
  or_create_ok none (created s' r) rest f c p =
      let (at, md, empty, eq, room) = create_room_lem random ref mode s s' r c in
      rw eq (created_IsPick ref mode s ss r at md empty room fit.1 z)

pub pick-ok :
    (random : Option (List ℕ)) (ref : ℕ) (mode : String) (ss : List ServerState)
    → ((x : ℕ) → occurrences x ss ≤ 1)
    → occurrences ref ss ≡ 0
    → All RoomsFit ss
    → PickOk ref mode ss (pick random ref mode ss)
unfolding pick occurrences
pick-ok random ref mode [] u z fit = tt
pick-ok random ref mode (s ∷ ss) u z fit =
    or_create_ok random ref mode s ss (λ x. unfold occurrences in u x) z fit.0
      (find_available_room mode s) (create_room random ref mode s) (pick random ref mode ss) refl
      refl (pick-ok random ref mode ss (λ x. omega (arith, u x)) (omega arith) fit.1)

module _ (P : ServerTag → RoomState → Type 0) (random : Option (List ℕ)) (ref : ℕ) (mode : String)
    (new : (t : ServerTag) (q : RoomState) → q.reservations ≡ [] → q.ref ≡ ref → P t q) where
  or_create-Keeps :
      (s : ServerState) (ss : List ServerState) (found : Option RoomState) (made : Created)
      (rest : Picked)
      → create_room random ref mode s ≡ made
      → AllRooms P (s ∷ ss)
      → Keeps P rest
      → Keeps P (or_create s ss rest made found)
  or_create-Keeps s ss (some r) made rest c a k = a
  or_create-Keeps s ss none random_failed rest c a k = tt
  or_create-Keeps s ss none at_limit all_full c a k = tt
  or_create-Keeps s ss none at_limit no_random c a k = tt
  or_create-Keeps s ss none at_limit (picked t r ss') c a k = (a.0, k)
  or_create-Keeps s ss none (created s' r) rest c a k =
      let (at, md, empty, eq, room) = create_room_lem random ref mode s s' r c in
      rw eq (All-append (P (tag s)) s.rooms (r ∷ []) a.0 (new (tag s) r empty at, tt), a.1)

  pub pick-Keeps : (ss : List ServerState) → AllRooms P ss → Keeps P (pick random ref mode ss)
  unfolding pick
  pick-Keeps [] a = tt
  pick-Keeps (s ∷ ss) a =
      or_create-Keeps s ss (find_available_room mode s) (create_room random ref mode s)
        (pick random ref mode ss) refl a (pick-Keeps ss a.1)
