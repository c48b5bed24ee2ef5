-- ===== src/Match/Entry.antt =====
-- logicserver/logic/match.go: whom a place in a room is given to, from the login to the room token.
use demo_server.Prelude.{
  ℕ, String, true, ◌≤◌, ◌≡◌, ◌⊎◌, inl, inr, refl, sym, ap, ◌∙◌, subst, List, All, arith,
}
use demo_server.Prelude.Text.{trim_space}
use demo_server.Prelude.Actions.{Result, ok, err}
use demo_server.RoomToken
use demo_server.RoomToken.{Jwt, Claims, parse, second, room_token_expired}
use demo_server.RoomToken.Laws.{IsJwt}
use demo_server.Matching.State
use demo_server.Matching.State.{Matcher, AllocateResult}
use demo_server.Matching.Config.{MatchServerConfig, new_matcher}
use demo_server.Matching.Allocate.{Env, allocate_room}
use demo_server.Matching.Histories.{Call, run}
use demo_server.Matching.Tokens.{Names, parse-allocate_room}
use demo_server.Account.Login.{AuthLogic, AuthError, LoginResult, verify_token}
use demo_server.Account.Active.{HasSession, HasRefresh, Verified, verify_token-Verified}
use demo_server.Match.Service.{
  allocate_success, allocate_response, allocate_failure, serve_allocate_room,
}
use demo_server.Match.Lobby.{
  Delivery, answered, not_sent, answer_lost, Backend, MatchError, auth_failed, match_unavailable,
  match_failed, match_refused, MatchRoomResult, on_sessions, call_matchserver, result_of,
  match_verified, match_room,
}

allocate_response-ok :
    (o : State.Result AllocateResult)
    → (allocate_response o).status ≡ true
    → (a : AllocateResult) × (o ≡ State.ok a) × (allocate_response o ≡ allocate_success a)
unfolding allocate_response allocate_failure
allocate_response-ok (State.ok a) h = (a, refl, refl)
allocate_response-ok (State.err State.invalid_player) h = absurd (ground (arith, h))
allocate_response-ok (State.err State.no_available_server) h = absurd (ground (arith, h))
allocate_response-ok (State.err State.room_server_full) h = absurd (ground (arith, h))
allocate_response-ok (State.err State.room_token_secret_empty) h = absurd (ground (arith, h))
allocate_response-ok (State.err State.generate_room_id) h = absurd (ground (arith, h))
allocate_response-ok (State.err State.generate_room_token) h = absurd (ground (arith, h))

module _ {R U : Type 0} (l : AuthLogic R U) (jwt : Jwt) where
  abbrev Answer : ℕ → LoginResult → State.Result AllocateResult → MatchRoomResult → Type 0
  Answer player auth o r =
      (a : AllocateResult) × (o ≡ State.ok a)
      × ¬ (player ≡ 0)
      × (r ≡ result_of auth (allocate_success a))

  match_verified-ok :
      (env : Env) (d : Delivery) (mode : String) (auth : LoginResult) (b : Backend R)
      (r : MatchRoomResult)
      → (match_verified l jwt env d mode auth b).1 ≡ ok r
      → Answer auth.user_id auth ((allocate_room jwt env b.matcher auth.user_id mode).1) r
  unfolding match_verified call_matchserver serve_allocate_room
  match_verified-ok env answered mode auth b r h =
      let o = (allocate_room jwt env b.matcher auth.user_id mode).1 in
      let status : (allocate_response o).status ≡ true = ground (arith, h) in
      let known : ¬ (auth.user_id ≡ 0) = λ z. ground (arith, h, z) in
      let same : r ≡ result_of auth (allocate_response o) = ground (arith, h) in
      let (a, p, q) = allocate_response-ok o status in (a, p, known, same ∙ ap (result_of auth) q)
  match_verified-ok env not_sent mode auth b r h = absurd (ground (arith, h))
  match_verified-ok env answer_lost mode auth b r h = absurd (ground (arith, h))

  match_verified_state :
      (env : Env) (d : Delivery) (mode : String) (auth : LoginResult) (b : Backend R)
      (e : AuthError)
      → (match_verified l jwt env d mode auth b).1 ≡ err (auth_failed e)
      → (match_verified l jwt env d mode auth b).0 ≡ b
  unfolding match_verified call_matchserver serve_allocate_room
  match_verified_state env answered mode auth b e h = ground (arith, h)
  match_verified_state env not_sent mode auth b e h = ground (arith, h)
  match_verified_state env answer_lost mode auth b e h = ground (arith, h)

module _ {R U : Type 0} (l : AuthLogic R U) (jwt : Jwt) where
  -- The token store has a session of the user, for the access token or for the refresh token.
  abbrev pub IsKnown : R → String → String → ℕ → LoginResult → Type 0
  IsKnown s access refresh now v = HasSession l s access now v ⊎ HasRefresh l s access refresh now v

  -- What the token tells a room server.
  abbrev pub Seats : ℕ → MatchRoomResult → RoomToken.Result Claims → Type 0
  Seats user r (RoomToken.ok c) =
      (c.player_id ≡ user) × (c.room_id ≡ r.room_id) × (c.server_id ≡ r.server_id)
  Seats user r (RoomToken.err e) = e ≡ room_token_expired

  abbrev pub IsMatched :
      String
      → Backend R
      → Backend R
      → String
      → String
      → ℕ
      → Result MatchError MatchRoomResult
      → Type 0
  IsMatched secret before after access refresh now (ok r) =
      (v : LoginResult) × IsKnown before.sessions access refresh now v
      × ¬ (v.user_id ≡ 0)
      × (r.access_token ≡ v.access_token)
      × ((later : ℕ) → Seats v.user_id r (parse jwt secret r.room_token later))
  IsMatched secret before after access refresh now (err (auth_failed e)) =
      after.matcher ≡ before.matcher
  IsMatched secret before after access refresh now (err e) =
      (v : LoginResult) × IsKnown before.sessions access refresh now v

  Verified-IsKnown :
      (s t : R) (access refresh : String) (now : ℕ) (v : LoginResult)
      → Verified l s t access refresh now (ok v)
      → IsKnown s access refresh now v
  Verified-IsKnown s t access refresh now v (inl h) = inl h.1
  Verified-IsKnown s t access refresh now v (inr h) = inr h

module _ {R U : Type 0} (l : AuthLogic R U) (jwt : Jwt) (laws : IsJwt jwt) (cfg : MatchServerConfig)
    (m : Matcher) (cs : List Call) (env : Env) (new : new_matcher cfg ≡ State.ok m)
    (clocks : All (λ c. second ≤ c.env.token_now) cs) (clock : second ≤ env.token_now) where
  Names-Seats :
      (user : ℕ) (auth : LoginResult) (a : AllocateResult) (read : RoomToken.Result Claims)
      → Names jwt laws user a read
      → Seats l jwt user (result_of auth (allocate_success a)) read
  unfolding result_of allocate_success
  Names-Seats user auth a (RoomToken.ok c) h = h
  Names-Seats user auth a (RoomToken.err e) h = h

  Answer-Seats :
      (mode : String) (auth : LoginResult) (r : MatchRoomResult) (later : ℕ)
      → Answer l jwt auth.user_id auth
          ((allocate_room jwt env (run jwt m cs) auth.user_id mode).1)
          r
      → (r.access_token ≡ auth.access_token)
        × Seats l jwt auth.user_id r (parse jwt m.token_secret r.room_token later)
  unfolding result_of allocate_success
  Answer-Seats mode auth r later (a, p, known, same) =
      subst
        (λ (x : MatchRoomResult).
          (x.access_token ≡ auth.access_token)
          × Seats l jwt auth.user_id x (parse jwt m.token_secret x.room_token later))
        (sym same)
        (
          refl,
          Names-Seats auth.user_id auth a (parse jwt m.token_secret a.room_token later) (
              parse-allocate_room jwt laws cfg m cs
                (record { env = env; player = auth.user_id; mode = mode }) a later new
                (clock, clocks) p),
        )

  module _ (s : R) (d : Delivery) (mode access refresh : String) (now : ℕ) where
    abbrev before : Backend R
    before = record { sessions = s; matcher = run jwt m cs }

    verified-IsMatched :
        (t : R) (v : LoginResult)
        → IsKnown l jwt s access refresh now v
        → (out : Backend R × Result MatchError MatchRoomResult)
        → match_verified l jwt env d mode v (record { sessions = t; matcher = run jwt m cs }) ≡ out
        → IsMatched l jwt m.token_secret before out.0 access refresh now out.1
    verified-IsMatched t v known (b, ok r) e =
        let answer =
          match_verified-ok l jwt env d mode v (record { sessions = t; matcher = run jwt m cs }) r
            (ap (λ x. x.1) e) in
        (
          v,
          known,
          answer.2,
          (Answer-Seats mode v r 0 answer).0,
          λ later. (Answer-Seats mode v r later answer).1,
        )
    verified-IsMatched t v known (b, err (auth_failed x)) e =
        ap (λ (y : Backend R). y.matcher)
          (sym (ap (λ x. x.0) e)
            ∙ match_verified_state l jwt env d mode v
                (record { sessions = t; matcher = run jwt m cs }) x (ap (λ x. x.1) e))
    verified-IsMatched t v known (b, err match_unavailable) e = (v, known)
    verified-IsMatched t v known (b, err match_failed) e = (v, known)
    verified-IsMatched t v known (b, err (match_refused text)) e = (v, known)

  -- MatchRoom, on every branch, after any history of a new matcher. An answer goes to a user for
  -- whom the token store has a session, and its room token, parsed under the matcher's secret at any
  -- time, names that user and the room and server of the answer, or is told to be expired. Where the
  -- login is refused the matcher has not changed, and any other error is told only to such a user.
  pub match_room-IsMatched :
      (s : R) (d : Delivery) (access refresh mode : String) (now : ℕ)
      → let b : Backend R = record { sessions = s; matcher = run jwt m cs } in
        IsMatched l jwt m.token_secret b
          (match_room l jwt access refresh mode now env d b).0
          (trim_space (trim_space access))
          (trim_space (trim_space refresh))
          now
          (match_room l jwt access refresh mode now env d b).1
  unfolding match_room on_sessions
  match_room-IsMatched s d access refresh mode now =
      go (verify_token l (trim_space access) (trim_space refresh) now s)
        (verify_token-Verified l s (trim_space access) (trim_space refresh) now)
    where
      go :
          (out : R × Result AuthError LoginResult)
          → Verified l s out.0
              (trim_space (trim_space access))
              (trim_space (trim_space refresh))
              now
              out.1
          → (let b : Backend R = record { sessions = s; matcher = run jwt m cs } in
              let next : Backend R × Result MatchError MatchRoomResult =
                (let (b', r) = (elim out.1 as (λ x. Backend R × Result MatchError LoginResult) [
                  | ok a ↦ (record b { sessions = out.0 }, ok a)
                  | err e ↦ (record b { sessions = out.0 }, err (auth_failed e))
                ]) in
                  elim r as (λ x. Backend R × Result MatchError MatchRoomResult) [
                    | ok a ↦ match_verified l jwt env d (trim_space mode) a b'
                    | err e ↦ (b', err e)
                  ]) in
              IsMatched l jwt m.token_secret b next.0
                (trim_space (trim_space access))
                (trim_space (trim_space refresh))
                now
                next.1)
      go (t, err e) v = refl
      go (t, ok a) v =
          verified-IsMatched s d (trim_space mode) (trim_space (trim_space access))
            (trim_space (trim_space refresh)) now t a
            (Verified-IsKnown l jwt s t (trim_space (trim_space access))
              (trim_space (trim_space refresh)) now a v)
            (match_verified l jwt env d (trim_space mode) a
              (record { sessions = t; matcher = run jwt m cs }))
            refl
