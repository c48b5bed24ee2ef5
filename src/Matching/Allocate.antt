-- ===== src/Matching/Allocate.antt =====
-- matchserver/logic/matcher.go: `AllocateRoom` and what it calls. The mutex is held from the
-- purge to the answer, so a call is one step.
use demo_server.Prelude.{
  ℕ, ◌+◌, ◌%◌, ◌^◌, String, List, [], ◌∷◌, Option, none, some, ltb, ◌==◌, if◌then◌else◌,
}
use demo_server.Prelude.Int.{pos}
use demo_server.Prelude.Text.{is_empty, trim_space, decimal}
use demo_server.Prelude.Assoc.{lookup, insert, delete}
use Prim.Native.String.{◌++◌ as str_append}
use demo_server.RoomToken.{Jwt, Claims, generate}
use demo_server.RoomToken
use demo_server.Matching.State.{
  ReservationKey, key_discrete, Reservation, RoomState, ServerState, Matcher, AllocateResult,
  Result, ok, err, invalid_player, room_server_full, generate_room_id, generate_room_token,
}
use demo_server.Matching.Rooms.{
  to_allocate_result, find_available_room, Created, at_limit, random_failed, created, create_room,
  update_room, drop_key, put_key, prune_empty_rooms,
}

-- What one call reads from its surroundings: the matcher's clock, the random source, and the
-- clock that is read again for the match id, the nonce and the token.
pub record Env : Type 0 where
  pub now : ℕ
  pub random : Option (List ℕ)
  pub match_millis : ℕ
  pub nonce_nanos : ℕ
  pub token_now : ℕ

unfoldable pub normalize_match_mode : String → String
normalize_match_mode mode =
    let trimmed = trim_space mode in if is_empty trimmed then "default" else trimmed

-- One turn of the loop over the matcher's map; deleting while ranging is allowed in Go.
unfoldable pub purge_entry : ℕ → ReservationKey × Reservation → Matcher → Matcher
purge_entry now (k, r) m = if ltb now r.expire_at then m else record m {
  reservations = delete key_discrete k m.reservations;
  servers = update_room r.room (drop_key k) m.servers;
}

unfoldable pub purge_loop : ℕ → List (ReservationKey × Reservation) → Matcher → Matcher
unfolding purge_entry
purge_loop now [] m = m
purge_loop now (e ∷ es) m = purge_loop now es (purge_entry now e m)

unfoldable pub purge_expired_reservations : ℕ → Matcher → Matcher
unfolding purge_loop
purge_expired_reservations now m =
    let m' = purge_loop now m.reservations m in record m' { servers = prune_empty_rooms m'.servers }

-- The answer of the loop of `allocateLocked` over the servers, with the servers as it leaves them.
pub data Picked : Type 0 where
  all_full : Picked
  no_random : Picked
  picked : ServerState → RoomState → List ServerState → Picked

abbrev pub behind : ServerState → Picked → Picked
behind s all_full = all_full
behind s no_random = no_random
behind s (picked t r ss) = picked t r (s ∷ ss)

abbrev pub or_created : ServerState → List ServerState → Picked → Created → Picked
or_created s ss rest at_limit = behind s rest
or_created s ss rest random_failed = no_random
or_created s ss rest (created s' r) = picked s' r (s' ∷ ss)

abbrev pub or_create : ServerState → List ServerState → Picked → Created → Option RoomState → Picked
or_create s ss rest made none = or_created s ss rest made
or_create s ss rest made (some r) = picked s r (s ∷ ss)

unfoldable pub pick : Option (List ℕ) → ℕ → String → List ServerState → Picked
pick random ref mode [] = all_full
pick random ref mode (s ∷ ss) =
    or_create s ss (pick random ref mode ss) (create_room random ref mode s)
      (find_available_room mode s)

unfoldable pub new_match_id : String → ℕ → ℕ → String
new_match_id mode millis seq =
    str_append mode (str_append "-" (str_append (decimal millis) (str_append "-" (decimal seq))))

unfoldable pub new_nonce : ℕ → ℕ → ℕ → String
new_nonce player nanos seq =
    str_append (decimal player)
      (str_append "-" (str_append (decimal nanos) (str_append "-" (decimal seq))))

-- The end of `AllocateRoom`: the reservation is entered in the room's map and in the matcher's.
abbrev pub complete :
    Matcher → (String → Reservation) → RoomToken.Result String → Matcher × Result AllocateResult
complete m make (RoomToken.err e) = (m, err generate_room_token)
complete m make (RoomToken.ok token) =
    let r = make token in
    (
      record m {
        servers = update_room r.room (put_key r.key r) m.servers;
        reservations = insert key_discrete r.key r m.reservations;
      },
      ok (to_allocate_result r),
    )

unfoldable pub claims_for : Env → ReservationKey → ServerState → RoomState → ℕ → Claims
unfolding new_match_id new_nonce
claims_for env key server room seq = record {
  player_id = key.player_id;
  room_id = room.id;
  server_id = server.id;
  match_id = new_match_id key.mode env.match_millis seq;
  nonce = new_nonce key.player_id env.nonce_nanos seq;
  expires_at = 0;
  issuer = "";
}

unfoldable pub reservation_for :
    Env → Matcher → ReservationKey → ServerState → RoomState → ℕ → String → Reservation
unfolding new_match_id
reservation_for env m key server room seq token = record {
  key = key;
  server_id = server.id;
  server_addr = server.addr;
  room_id = room.id;
  match_id = new_match_id key.mode env.match_millis seq;
  room_token = token;
  expire_at = env.now + m.token_expire;
  room = room.ref;
}

module _ (jwt : Jwt) (env : Env) where
  -- From the answer of the loop on; a found room takes a sequence number, also if signing fails.
  abbrev pub after_pick : Matcher → ReservationKey → Picked → Matcher × Result AllocateResult
  after_pick m key all_full = (m, err room_server_full)
  after_pick m key no_random = (m, err generate_room_id)
  after_pick m key (picked server room servers) =
      let seq = (m.sequence + 1) % 2 ^ 64 in
      let m' = record m { servers = servers; sequence = seq; next_ref = m.next_ref + 1 } in
      complete m' (reservation_for env m key server room seq) (
        generate jwt m.token_secret (claims_for env key server room seq) (pos m.token_expire)
          env.token_now)

  unfoldable pub allocate_new : Matcher → ReservationKey → Matcher × Result AllocateResult
  unfolding pick
  allocate_new m key = after_pick m key (pick env.random m.next_ref key.mode m.servers)

  -- A reservation of the key that has not run out is given again.
  abbrev pub reuse_or :
      Matcher
      → Option Reservation
      → Matcher × Result AllocateResult
      → Matcher × Result AllocateResult
  reuse_or m none fresh = fresh
  reuse_or m (some r) fresh =
      if ltb env.now r.expire_at then (m, ok (to_allocate_result r)) else fresh

  unfoldable pub allocate_key : Matcher → ReservationKey → Matcher × Result AllocateResult
  unfolding allocate_new
  allocate_key m key = reuse_or m (lookup key_discrete key m.reservations) (allocate_new m key)

  unfoldable pub allocate_room : Matcher → ℕ → String → Matcher × Result AllocateResult
  unfolding allocate_key normalize_match_mode purge_expired_reservations
  allocate_room m player mode =
      if player == 0
      then (m, err invalid_player)
      else allocate_key (purge_expired_reservations env.now m)
          (record { player_id = player; mode = normalize_match_mode mode })
