-- ===== src/Matching/Full.antt =====
-- When `allocateLocked` answers that the roomservers are full.
use demo_server.Prelude.{
  ℕ, ◌≤◌, ◌<◌, ◌≡◌, ◌≢◌, ◌↔◌, refl, String, Option, none, some, List, [], ◌∷◌, All, arith, length,
  ◌==◌, Bool-cases, inl, inr,
}
use demo_server.RoomToken
use demo_server.RoomToken.{Jwt}
use demo_server.Matching.State.{
  RoomState, ServerState, Reservation, ReservationKey, Matcher, err, room_server_full,
}
use demo_server.Matching.Rooms.{
  find_available, find_available_room, Created, at_limit, random_failed, created, create_room,
}
use demo_server.Matching.Allocate.{
  Env, Picked, all_full, no_random, picked, or_create, pick, complete, after_pick, allocate_new,
  allocate_key, allocate_room, purge_expired_reservations, normalize_match_mode,
}
use demo_server.Matching.Invariant.{find}
use demo_server.Matching.Answers.{asked_key}

-- No room of the mode has a free place, and the server may open no other.
abbrev pub IsFull : String → ServerState → Type 0
IsFull mode s =
    (0 < s.max_rooms)
    × (s.max_rooms ≤ length s.rooms)
    × All (λ r. r.mode ≡ mode → s.max_players ≤ length r.reservations) s.rooms

none_of_full :
    (mode : String) (limit : ℕ) (rs : List RoomState)
    → All (λ r. r.mode ≡ mode → limit ≤ length r.reservations) rs
    → find_available mode limit rs ≡ none
unfolding find_available
none_of_full mode limit [] h = refl
none_of_full mode limit (r ∷ rs) h = ground (arith, h.0, none_of_full mode limit rs h.1)

full_of_none :
    (mode : String) (limit : ℕ) (rs : List RoomState)
    → find_available mode limit rs ≡ none
    → All (λ r. r.mode ≡ mode → limit ≤ length r.reservations) rs
unfolding find_available
full_of_none mode limit [] h = tt
full_of_none mode limit (r ∷ rs) h = (λ e. ground arith, full_of_none mode limit rs (ground arith))

at_limit_iff :
    (random : Option (List ℕ)) (ref : ℕ) (mode : String) (s : ServerState)
    → (create_room random ref mode s ≡ at_limit)
      ↔ ((0 < s.max_rooms) × (s.max_rooms ≤ length s.rooms))
unfolding create_room
at_limit_iff none ref mode s = ground arith
at_limit_iff (some bytes) ref mode s = ground arith

-- One turn of the loop answers "full" if the server is full and the rest answers so.
or_create-all_full :
    (s : ServerState) (ss : List ServerState) (rest : Picked) (made : Created)
    (found : Option RoomState)
    → (or_create s ss rest made found ≡ all_full)
      ↔ ((found ≡ none) × (made ≡ at_limit) × (rest ≡ all_full))
or_create-all_full s ss rest made (some r) = ground arith
or_create-all_full s ss all_full at_limit none = ground arith
or_create-all_full s ss no_random at_limit none = ground arith
or_create-all_full s ss (picked t r ts) at_limit none = ground arith
or_create-all_full s ss rest random_failed none = ground arith
or_create-all_full s ss rest (created t r) none = ground arith

pick-cons-IsFull :
    (random : Option (List ℕ)) (ref : ℕ) (mode : String) (s : ServerState) (ss : List ServerState)
    → (pick random ref mode (s ∷ ss) ≡ all_full)
      ↔ (IsFull mode s × (pick random ref mode ss ≡ all_full))
unfolding pick find_available_room
pick-cons-IsFull random ref mode s ss = (forth, back)
  where
    turn :
        (or_create s ss
            (pick random ref mode ss)
            (create_room random ref mode s)
            (find_available mode s.max_players s.rooms)
          ≡ all_full)
        ↔ ((find_available mode s.max_players s.rooms ≡ none)
            × (create_room random ref mode s ≡ at_limit)
            × (pick random ref mode ss ≡ all_full))
    turn =
        or_create-all_full s ss (pick random ref mode ss) (create_room random ref mode s)
          (find_available mode s.max_players s.rooms)

    forth :
        pick random ref mode (s ∷ ss) ≡ all_full
        → IsFull mode s × (pick random ref mode ss ≡ all_full)
    forth e =
        let (f, c, p) = turn.0 e in
        let (limited, reached) = (at_limit_iff random ref mode s).0 c in
        ((limited, reached, full_of_none mode s.max_players s.rooms f), p)

    back :
        IsFull mode s × (pick random ref mode ss ≡ all_full)
        → pick random ref mode (s ∷ ss) ≡ all_full
    back (full, p) = turn.1 (
      none_of_full mode s.max_players s.rooms full.2,
      (at_limit_iff random ref mode s).1 (full.0, full.1),
      p,
    )

-- The search gives up exactly when every server is full.
pub pick-all_full :
    (random : Option (List ℕ)) (ref : ℕ) (mode : String) (ss : List ServerState)
    → (pick random ref mode ss ≡ all_full) ↔ All (IsFull mode) ss
unfolding pick
pick-all_full random ref mode [] = (λ e. tt, λ h. refl)
pick-all_full random ref mode (s ∷ ss) =
    let (forth, back) = pick-cons-IsFull random ref mode s ss in
    let (ih₀, ih₁) = pick-all_full random ref mode ss in
    (λ e. ((forth e).0, ih₀ (forth e).1), λ h. back (h.0, ih₁ h.1))

complete-ne-full :
    (m : Matcher) (make : String → Reservation) (signed : RoomToken.Result String)
    → (complete m make signed).1 ≢ err room_server_full
complete-ne-full m make (RoomToken.err e) = λ h. ground arith
complete-ne-full m make (RoomToken.ok t) = λ h. ground arith

module _ (jwt : Jwt) (env : Env) where
  after_pick-full :
      (m : Matcher) (key : ReservationKey) (p : Picked)
      → ((after_pick jwt env m key p).1 ≡ err room_server_full) ↔ (p ≡ all_full)
  after_pick-full m key all_full = ground arith
  after_pick-full m key no_random = ground arith
  after_pick-full m key (picked s r ss) =
      (λ h. absurd (complete-ne-full _ _ _ h), λ h. absurd (ground arith))

  allocate_new-IsFull :
      (m : Matcher) (key : ReservationKey)
      → ((allocate_new jwt env m key).1 ≡ err room_server_full) ↔ All (IsFull key.mode) m.servers
  unfolding allocate_new
  allocate_new-IsFull m key =
      let (a, b) = after_pick-full m key (pick env.random m.next_ref key.mode m.servers) in
      let (c, d) = pick-all_full env.random m.next_ref key.mode m.servers in
      (λ h. c (a h), λ h. b (d h))

  -- For a player other than 0 without a reservation of the mode that outlasts the purge, AllocateRoom
  -- answers ErrRoomServerFull exactly when, after the purge, every server is at its room limit and
  -- no room of the mode has a free place.
  pub allocate_room-IsFull :
      (m : Matcher) (player : ℕ) (mode : String)
      → player ≢ 0
      → find (asked_key player mode) (purge_expired_reservations env.now m).reservations ≡ none
      → ((allocate_room jwt env m player mode).1 ≡ err room_server_full)
        ↔ All (IsFull (normalize_match_mode mode)) (purge_expired_reservations env.now m).servers
  unfolding allocate_room allocate_key
  allocate_room-IsFull m player mode known absent = elim (Bool-cases (player == 0)) [
    | inl anonymous ↦ absurd (ground arith)
    | inr other ↦
        rw (other, absent)
          (allocate_new-IsFull (purge_expired_reservations env.now m) (asked_key player mode))
  ]
