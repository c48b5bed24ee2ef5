-- ===== src/Matching/Answers.antt =====
-- What a call of AllocateRoom answers, and what it does to the reservations.
use demo_server.Prelude.{
  ℕ, ◌<◌, ◌*◌, ◌+◌, ◌%◌, ◌^◌, ◌≡◌, ◌≢◌, refl, String, Option, none, some, ◌==◌, ltb, arith, ite,
  ◌∙◌, sym, ap, ◌⊎◌, ℕ_discrete, Bool-cases, inl, inr,
}
use demo_server.Prelude.Int.{pos}
use demo_server.Prelude.Assoc.{lookup-insert}
use demo_server.RoomToken
use demo_server.RoomToken.{Jwt, generate}
use demo_server.Matching.State.{
  Reservation, ReservationKey, key_discrete, Matcher, AllocateResult, Result, ok, err, Error,
}
use demo_server.Matching.Rooms.{to_allocate_result}
use demo_server.Matching.Allocate.{
  Env, Picked, all_full, no_random, picked, pick, complete, claims_for, reservation_for, after_pick,
  allocate_new, reuse_or, allocate_key, allocate_room, purge_expired_reservations,
  normalize_match_mode,
}
use demo_server.Matching.Invariant.{Reservations, find, Inv}
use demo_server.Matching.Purge.{find-purge, live}
use demo_server.Matching.Reserve.{allocate_room-Inv}

abbrev pub asked_key : ℕ → String → ReservationKey
asked_key player mode = record { player_id = player; mode = normalize_match_mode mode }

-- What a call does to the reservations, by its answer.
abbrev Effect : Reservations → ReservationKey → Matcher × Result AllocateResult → Type 0
Effect before key (m', err e) = (j : ReservationKey) → find j m'.reservations ≡ find j before
Effect before key (m', ok a) =
    (r : Reservation) × (a ≡ to_allocate_result r)
    × ((j : ReservationKey)
        → find j m'.reservations ≡ ite (key_discrete key j) (some r) (find j before))

module _ (jwt : Jwt) (env : Env) where
  complete-Effect :
      (m : Matcher) (before : Reservations) (key : ReservationKey) (make : String → Reservation)
      → m.reservations ≡ before
      → ((t : String) → (make t).key ≡ key)
      → (signed : RoomToken.Result String) → Effect before key (complete m make signed)
  complete-Effect m before key make same own (RoomToken.err e) = λ j. rw same
  complete-Effect m before key make same own (RoomToken.ok t) =
      (make t, refl, λ j. ground (arith, own t, lookup-insert key_discrete key j (make t) before))

  after_pick-Effect :
      (m : Matcher) (key : ReservationKey) (p : Picked)
      → Effect m.reservations key (after_pick jwt env m key p)
  unfolding reservation_for
  after_pick-Effect m key all_full = λ j. refl
  after_pick-Effect m key no_random = λ j. refl
  after_pick-Effect m key (picked s r ss) =
      let seq : ℕ = (m.sequence + 1) % 2 ^ 64 in
      complete-Effect _ m.reservations key (reservation_for env m key s r seq) refl (λ t. refl)
        (generate jwt m.token_secret (claims_for env key s r seq) (pos m.token_expire)
          env.token_now)

  allocate_key-Effect :
      (m : Matcher) (key : ReservationKey) (o : Option Reservation)
      → find key m.reservations ≡ o
      → Effect m.reservations key (reuse_or jwt env m o (allocate_new jwt env m key))
  unfolding allocate_new
  allocate_key-Effect m key none e =
      after_pick-Effect m key (pick env.random m.next_ref key.mode m.servers)
  allocate_key-Effect m key (some r) e = elim (Bool-cases (ltb env.now r.expire_at)) [
    | inl alive ↦ rw alive (r, refl, λ j. ground arith)
    | inr over ↦ rw over (after_pick-Effect m key (pick env.random m.next_ref key.mode m.servers))
  ]

  allocate_room-Effect :
      (m : Matcher) (player : ℕ) (mode : String)
      → player ≢ 0
      → Effect
          (purge_expired_reservations env.now m).reservations
          (asked_key player mode)
          (allocate_room jwt env m player mode)
  unfolding allocate_room allocate_key
  allocate_room-Effect m player mode known = elim (Bool-cases (player == 0)) [
    | inl anonymous ↦ absurd (ground arith)
    | inr other ↦ rw other (
        allocate_key-Effect (purge_expired_reservations env.now m) (asked_key player mode)
          (find (asked_key player mode) (purge_expired_reservations env.now m).reservations) refl)
  ]

Effect-of_ok :
    (before : Reservations) (key : ReservationKey) (out : Matcher × Result AllocateResult)
    (a : AllocateResult)
    → Effect before key out
    → out.1 ≡ ok a
    → (r : Reservation) × (a ≡ to_allocate_result r)
      × ((j : ReservationKey)
          → find j out.0.reservations ≡ ite (key_discrete key j) (some r) (find j before))
Effect-of_ok before key (m', ok b) a (r, e, rest) h = (r, ground arith, rest)
Effect-of_ok before key (m', err x) a f h = cc

Effect-of_err :
    (before : Reservations) (key : ReservationKey) (out : Matcher × Result AllocateResult)
    (x : Error)
    → Effect before key out
    → out.1 ≡ err x
    → (j : ReservationKey) → find j out.0.reservations ≡ find j before
Effect-of_err before key (m', ok b) x f h = cc
Effect-of_err before key (m', err y) x f h = f

module _ (jwt : Jwt) (env : Env) (m : Matcher) (player : ℕ) (mode : String) (v : Inv m) where
  known_of_ok : (a : AllocateResult) → (allocate_room jwt env m player mode).1 ≡ ok a → player ≢ 0
  unfolding allocate_room
  known_of_ok a h e = ground arith

  -- The reservation behind an answer stands in the map under the asked key; every other key's
  -- reservation is as the purge left it.
  pub stored_of_ok :
      (a : AllocateResult)
      → (allocate_room jwt env m player mode).1 ≡ ok a
      → (r : Reservation) × (a ≡ to_allocate_result r)
        × ((j : ReservationKey)
            → find j (allocate_room jwt env m player mode).0.reservations
              ≡ ite
                  (key_discrete (asked_key player mode) j)
                  (some r)
                  (live env.now (find j m.reservations)))
  stored_of_ok a h =
      let (r, e, rest) =
        Effect-of_ok _ _ (allocate_room jwt env m player mode) a
          (allocate_room-Effect jwt env m player mode (known_of_ok a h)) h in
      (r, e, λ j. rest j ∙ rw (find-purge env.now m j v))

  -- A call that answers with an error reserves nothing: besides the purge of what has run out,
  -- every reservation is as it was.
  pub refused_reserves_nothing :
      (x : Error) (j : ReservationKey)
      → (allocate_room jwt env m player mode).1 ≡ err x
      → (find j (allocate_room jwt env m player mode).0.reservations
          ≡ live env.now (find j m.reservations))
        ⊎ ((player ≡ 0) × ((allocate_room jwt env m player mode).0 ≡ m))
  unfolding allocate_room
  refused_reserves_nothing x j h = elim (ℕ_discrete player 0) [
    | yes anonymous ↦ inr (anonymous, ground arith)
    | no known ↦ inl (
        Effect-of_err _ _ (allocate_room jwt env m player mode) x
          (allocate_room-Effect jwt env m player mode known) h j
        ∙ find-purge env.now m j v)
  ]

  -- A reservation of another player, or of another mode, is never changed, only purged when its
  -- time has come.
  pub others_untouched :
      (j : ReservationKey)
      → player ≢ 0
      → j ≢ asked_key player mode
      → find j (allocate_room jwt env m player mode).0.reservations
        ≡ live env.now (find j m.reservations)
  others_untouched j known differ =
      by_answer (allocate_room jwt env m player mode)
        (allocate_room-Effect jwt env m player mode known)
      ∙ find-purge env.now m j v
    where
      by_answer :
          (out : Matcher × Result AllocateResult)
          → Effect (purge_expired_reservations env.now m).reservations (asked_key player mode) out
          → find j out.0.reservations ≡ find j (purge_expired_reservations env.now m).reservations
      by_answer (m', err x) f = f j
      by_answer (m', ok a) (r, e, rest) = ground (arith, rest j)

find_of_stored :
    (key : ReservationKey) (o p : Option Reservation) (r : Reservation)
    → o ≡ ite (key_discrete key key) (some r) p
    → o ≡ some r
find_of_stored key o p r e = ground arith

reuse_of_found :
    (jwt : Jwt) (env : Env) (m : Matcher) (player : ℕ) (mode : String) (r : Reservation)
    → player ≢ 0
    → find (asked_key player mode) (purge_expired_reservations env.now m).reservations ≡ some r
    → env.now < r.expire_at
    → (allocate_room jwt env m player mode).1 ≡ ok (to_allocate_result r)
unfolding allocate_room allocate_key
reuse_of_found jwt env m player mode r known e alive = elim (Bool-cases (player == 0)) [
  | inl anonymous ↦ absurd (ground arith)
  | inr other ↦ rw (other, e) (ground arith)
]

alive_before_answer_expires :
    (now : ℕ) (a : AllocateResult) (r : Reservation)
    → a ≡ to_allocate_result r
    → now < a.expire_at * 1_000_000
    → now < r.expire_at
unfolding to_allocate_result
alive_before_answer_expires now a r e h = ground arith

-- Asking again before the answer's expiry, under any clock, random source and token library, gives
-- the same answer: the same room, match and token.
pub replay :
    (jwt again : Jwt) (env later : Env) (m : Matcher) (player : ℕ) (mode : String)
    (a : AllocateResult)
    → Inv m
    → (allocate_room jwt env m player mode).1 ≡ ok a
    → later.now < a.expire_at * 1_000_000
    → (allocate_room again later (allocate_room jwt env m player mode).0 player mode).1 ≡ ok a
replay jwt again env later m player mode a v h soon =
    let (r, e, stored) = stored_of_ok jwt env m player mode v a h in
    let m' : Matcher = (allocate_room jwt env m player mode).0 in
    let key : ReservationKey = asked_key player mode in
    let alive : later.now < r.expire_at = alive_before_answer_expires later.now a r e soon in
    reuse_of_found again later m' player mode r (known_of_ok jwt env m player mode v a h)
      (find-purge later.now m' key (allocate_room-Inv jwt env m player mode v)
        ∙ rw (find_of_stored key (find key m'.reservations) _ r (stored key)) (ground arith))
      alive
    ∙ ap ok (sym e)
