-- ===== src/Matching/Tokens.antt =====
-- matchserver/logic/matcher.go and pkg/roomtoken/token.go: whom the tokens of the answers name.
use demo_server.Prelude.{
  ℕ, ◌+◌, ◌%◌, ◌^◌, ◌≡◌, ◌≢◌, refl, String, Option, none, some, List, [], ◌∷◌, ◌==◌, ltb, arith,
  ite, if◌then◌else◌, ◌∙◌, sym, ap, subst, Bool, true, false, Bool-cases, inl, inr, ◌/◌, ◌≤◌, All,
}
use demo_server.Prelude.Int.{pos}
use demo_server.Prelude.Assoc.{lookup, lookup-insert}
use demo_server.RoomToken
use demo_server.RoomToken.{Jwt, Claims, generate, parse, room_token_expired, stamp, second}
use demo_server.RoomToken.Laws.{IsJwt, parse-generate}
use demo_server.Matching.State.{
  Reservation, ReservationKey, key_discrete, Matcher, AllocateResult, Result, ok, err,
}
use demo_server.Matching.Config.{MatchServerConfig, new_matcher}
use demo_server.Matching.Rooms.{to_allocate_result}
use demo_server.Matching.Allocate.{
  Env, Picked, all_full, no_random, picked, pick, complete, claims_for, reservation_for, after_pick,
  allocate_new, reuse_or, allocate_key, allocate_room, purge_loop, purge_entry,
  purge_expired_reservations,
}
use demo_server.Matching.Invariant.{Reservations, find, Inv}
use demo_server.Matching.Purge.{find-purge, live}
use demo_server.Matching.Reserve.{allocate_room-Inv}
use demo_server.Matching.Answers.{asked_key}
use demo_server.Matching.Histories.{Call, run, new_matcher-Inv, reachable-Inv}

module _ (jwt : Jwt) (secret : String) (expire : ℕ) where
  -- The token was signed under the secret for the player, the room and the server.
  abbrev pub IsSigned : ℕ → String → String → String → Type 0
  IsSigned player room server token =
      (c : Claims) × (now : ℕ) × (second ≤ now)
      × (generate jwt secret c (pos expire) now ≡ RoomToken.ok token)
      × (c.player_id ≡ player)
      × (c.room_id ≡ room)
      × (c.server_id ≡ server)

  abbrev SignedFor : ReservationKey → Reservation → Type 0
  SignedFor key r = IsSigned key.player_id r.room_id r.server_id r.room_token

  -- Every reservation has a token of its player, room and server.
  abbrev pub AllSigned : Matcher → Type 0
  AllSigned m =
      (m.token_secret ≡ secret)
      × (m.token_expire ≡ expire)
      × ((j : ReservationKey) (r : Reservation) → find j m.reservations ≡ some r → SignedFor j r)

  abbrev Answered : ReservationKey → Matcher × Result AllocateResult → Type 0
  Answered key (m, err e) = AllSigned m
  Answered key (m, ok a) = AllSigned m × IsSigned key.player_id a.room_id a.server_id a.room_token

  insert_signed :
      (m : Reservations) (key : ReservationKey) (r : Reservation)
      → r.key ≡ key
      → SignedFor key r
      → ((j : ReservationKey) (w : Reservation) → find j m ≡ some w → SignedFor j w)
      → (j : ReservationKey) (w : Reservation)
      → ite (key_discrete key j) (some r) (find j m) ≡ some w
      → SignedFor j w
  insert_signed m key r own signed old j w e = go (key_discrete key j) e
    where
      go : (d : Dec (key ≡ j)) → ite d (some r) (find j m) ≡ some w → SignedFor j w
      go (yes same) e =
          let one : r ≡ w = ground (arith, e) in
          subst (λ x. SignedFor x w) same (subst (SignedFor key) one signed)
      go (no other) e = old j w e

  complete-Answered :
      (m : Matcher) (key : ReservationKey) (make : String → Reservation)
      (signed : RoomToken.Result String)
      → AllSigned m
      → ((t : String) → (make t).key ≡ key)
      → ((t : String) → signed ≡ RoomToken.ok t → SignedFor key (make t))
      → Answered key (complete m make signed)
  unfolding to_allocate_result
  complete-Answered m key make (RoomToken.err e) all own sign = all
  complete-Answered m key make (RoomToken.ok t) all own sign = (
    (
      all.0,
      all.1,
      λ j w e. insert_signed m.reservations key (make t) (own t) (sign t refl) all.2 j w (
          subst (λ k. ite (key_discrete k j) (some (make t)) (find j m.reservations) ≡ some w)
            (own t) (sym (lookup-insert key_discrete (make t).key j (make t) m.reservations) ∙ e)),
    ),
    sign t refl,
  )

  module _ (env : Env) (clock : second ≤ env.token_now) where
    after_pick-Answered :
        (m : Matcher) (key : ReservationKey) (p : Picked)
        → AllSigned m
        → Answered key (after_pick jwt env m key p)
    unfolding reservation_for claims_for
    after_pick-Answered m key all_full all = all
    after_pick-Answered m key no_random all = all
    after_pick-Answered m key (picked s r ss) all =
        let seq : ℕ = (m.sequence + 1) % 2 ^ 64 in
        let c : Claims = claims_for env key s r seq in
        complete-Answered (record m { servers = ss; sequence = seq; next_ref = m.next_ref + 1 }) key
          (reservation_for env m key s r seq)
          (generate jwt m.token_secret c (pos m.token_expire) env.token_now) all (λ t. refl)
          (λ t e. (
            c,
            env.token_now,
            clock,
            subst (λ x. generate jwt x c (pos expire) env.token_now ≡ RoomToken.ok t) all.0
                (subst (λ x. generate jwt m.token_secret c (pos x) env.token_now ≡ RoomToken.ok t)
                  all.1 e),
            refl,
            refl,
            refl,
          ))

    reuse_Answered :
        (m : Matcher) (key : ReservationKey) (o : Option Reservation)
        → find key m.reservations ≡ o
        → AllSigned m
        → Answered key (reuse_or jwt env m o (allocate_new jwt env m key))
    unfolding allocate_new to_allocate_result
    reuse_Answered m key none e all =
        after_pick-Answered m key (pick env.random m.next_ref key.mode m.servers) all
    reuse_Answered m key (some r) e all = elim (Bool-cases (ltb env.now r.expire_at)) [
      | inl alive ↦ rw alive (all, all.2 key r e)
      | inr over ↦
          rw over (after_pick-Answered m key (pick env.random m.next_ref key.mode m.servers) all)
    ]

  purge_loop-secret :
      (now : ℕ) (es : List (ReservationKey × Reservation)) (m : Matcher)
      → ((purge_loop now es m).token_secret ≡ m.token_secret)
        × ((purge_loop now es m).token_expire ≡ m.token_expire)
  unfolding purge_loop purge_entry
  purge_loop-secret now [] m = (refl, refl)
  purge_loop-secret now (e ∷ es) m = ground (arith, purge_loop-secret now es (purge_entry now e m))

  live-some :
      (now : ℕ) (o : Option Reservation) (r : Reservation) → live now o ≡ some r → o ≡ some r
  live-some now none r e = e
  live-some now (some v) r e = ground (arith, e)

  purge_AllSigned :
      (now : ℕ) (m : Matcher) → Inv m → AllSigned m → AllSigned (purge_expired_reservations now m)
  unfolding purge_expired_reservations
  purge_AllSigned now m v all =
      let (a, b) = purge_loop-secret now m.reservations m in
      (
        a ∙ all.0,
        b ∙ all.1,
        λ j r e.
            all.2 j r (live-some now (find j m.reservations) r (sym (find-purge now m j v) ∙ e)),
      )

  allocate_room-Answered :
      (env : Env) (m : Matcher) (player : ℕ) (mode : String)
      → second ≤ env.token_now
      → Inv m
      → AllSigned m
      → Answered (asked_key player mode) (allocate_room jwt env m player mode)
  unfolding allocate_room allocate_key
  allocate_room-Answered env m player mode clock v all = elim (Bool-cases (player == 0)) [
    | inl anonymous ↦ rw anonymous all
    | inr other ↦ rw other (
        reuse_Answered env clock (purge_expired_reservations env.now m) (asked_key player mode)
          (find (asked_key player mode) (purge_expired_reservations env.now m).reservations) refl
          (purge_AllSigned env.now m v all))
  ]

  Answered-AllSigned :
      (key : ReservationKey) (out : Matcher × Result AllocateResult)
      → Answered key out
      → AllSigned out.0
  Answered-AllSigned key (m, ok a) h = h.0
  Answered-AllSigned key (m, err e) h = h

  Answered-ok :
      (key : ReservationKey) (out : Matcher × Result AllocateResult) (a : AllocateResult)
      → Answered key out
      → out.1 ≡ ok a
      → IsSigned key.player_id a.room_id a.server_id a.room_token
  Answered-ok key (m, ok b) a h e =
      let same : b ≡ a = ground (arith, e) in
      subst (λ (x : AllocateResult). IsSigned key.player_id x.room_id x.server_id x.room_token) same
        h.1
  Answered-ok key (m, err x) a h e = absurd (ground (arith, e))

  run-AllSigned :
      (m : Matcher) (cs : List Call)
      → All (λ c. second ≤ c.env.token_now) cs
      → Inv m
      → AllSigned m
      → AllSigned (run jwt m cs)
  unfolding run
  run-AllSigned m [] t v all = all
  run-AllSigned m (c ∷ cs) t v all =
      run-AllSigned ((allocate_room jwt c.env m c.player c.mode).0) cs t.1
        (allocate_room-Inv jwt c.env m c.player c.mode v)
        (Answered-AllSigned (asked_key c.player c.mode) (allocate_room jwt c.env m c.player c.mode)
          (allocate_room-Answered c.env m c.player c.mode t.0 v all))

some-ne-none : (r : Reservation) → some r ≢ none
some-ne-none r = λ h. ground (arith, h)

-- The secret and the life of the tokens of a new matcher; it has no reservation.
new_matcher-AllSigned :
    (jwt : Jwt) (cfg : MatchServerConfig) (m : Matcher)
    → new_matcher cfg ≡ ok m
    → AllSigned jwt m.token_secret m.token_expire m
unfolding new_matcher lookup
new_matcher-AllSigned jwt cfg m e =
    let empty : m.reservations ≡ [] = ground (arith, e) in
    (refl, refl, λ j r h. absurd (some-ne-none r (sym h ∙ ap (lookup key_discrete j) empty)))

module _ (jwt : Jwt) (laws : IsJwt jwt) where
  -- What the room server learns from a token.
  abbrev pub Names : ℕ → AllocateResult → RoomToken.Result Claims → Type 0
  Names player a (RoomToken.ok c) =
      (c.player_id ≡ player) × (c.room_id ≡ a.room_id) × (c.server_id ≡ a.server_id)
  Names player a (RoomToken.err e) = e ≡ room_token_expired

  signed_Names :
      (secret : String) (expire : ℕ) (player : ℕ) (a : AllocateResult) (later : ℕ)
      → IsSigned jwt secret expire player a.room_id a.server_id a.room_token
      → Names player a (parse jwt secret a.room_token later)
  unfolding stamp
  signed_Names secret expire player a later (c, now, clock, signed, p, r, s) =
      subst (Names player a)
        (sym (parse-generate jwt laws secret a.room_token c (pos expire) now later clock signed))
        (go (ltb (stamp c (pos expire) now).expires_at (later / second)))
    where
      go :
          (b : Bool)
          → Names player a (
              if b
              then RoomToken.err room_token_expired
              else RoomToken.ok (stamp c (pos expire) now))
      go true = refl
      go false = (p, r, s)

  -- After any history of AllocateRoom calls from a new matcher, the token of an answer, parsed under
  -- the matcher's secret at any time, names the player who asked and the room and server of the
  -- answer, or is told to be expired.
  pub parse-allocate_room :
      (cfg : MatchServerConfig) (m : Matcher) (cs : List Call) (c : Call) (a : AllocateResult)
      (later : ℕ)
      → new_matcher cfg ≡ ok m
      → All (λ c. second ≤ c.env.token_now) (c ∷ cs)
      → (allocate_room jwt c.env (run jwt m cs) c.player c.mode).1 ≡ ok a
      → Names c.player a (parse jwt m.token_secret a.room_token later)
  parse-allocate_room cfg m cs c a later new clock e =
      let signed = new_matcher-AllSigned jwt cfg m new in
      let all =
        run-AllSigned jwt m.token_secret m.token_expire m cs clock.1 (new_matcher-Inv cfg m new)
          signed in
      signed_Names m.token_secret m.token_expire c.player a later (
        Answered-ok jwt m.token_secret m.token_expire (asked_key c.player c.mode)
          (allocate_room jwt c.env (run jwt m cs) c.player c.mode) a
          (allocate_room-Answered jwt m.token_secret m.token_expire c.env (run jwt m cs) c.player
            c.mode clock.0 (reachable-Inv jwt cfg m cs new) all)
          e)
