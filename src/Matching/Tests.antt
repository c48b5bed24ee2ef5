-- ===== src/Matching/Tests.antt =====
-- One roomserver with one room of two places, and a library that signs every token alike.
use demo_server.Prelude.{
  ℕ, ◌≤◌, ◌≡◌, refl, some, none, List, [], ◌∷◌, All, arith, ◌==◌, if◌then◌else◌, length, ite, ap,
  ◌↔◌, ◌⊎◌,
}
use demo_server.Prelude.Text.{trim_space, hex, decimal}
use demo_server.Prelude.Assoc.{lookup, insert}
use demo_server.RoomToken.{Jwt, other_error, generate}
use demo_server.Matching.State.{
  Reservation, ReservationKey, AllocateResult, key_discrete, ok, err, room_server_full,
}
use demo_server.Matching.Rooms.{
  create_room, find_available_room, update_room, prune_empty_rooms, to_allocate_result,
}
use demo_server.Matching.Allocate.{
  Env, normalize_match_mode, allocate_room, purge_expired_reservations, reservation_for,
}
use demo_server.Matching.Refs.{occurrences, AllRooms}
use demo_server.Matching.Invariant.{find, Inv, Names}
use demo_server.Matching.Purge.{live, find-purge}
use demo_server.Matching.Histories.{
  Call, run, new_matcher-Inv, reachable-Inv, seated_once, within_capacity,
}
use demo_server.Matching.Reserve.{allocate_room-Inv}
use demo_server.Matching.Answers.{
  asked_key, stored_of_ok, refused_reserves_nothing, others_untouched, replay,
}
use demo_server.Matching.Full.{IsFull, allocate_room-IsFull}
use demo_server.Matching.Samples.{config, start, started}

abbrev stamped : Jwt
stamped = record { signed_string = λ s c. some "t"; parse_with_claims = λ f t n. other_error }

abbrev at : ℕ → Env
at now = record {
  now = now;
  random = some (10 ∷ 255 ∷ []);
  match_millis = 5;
  nonce_nanos = 5;
  token_now = now;
}

start-Inv : Inv start
start-Inv = new_matcher-Inv config start started

abbrev first_answer : AllocateResult
first_answer = record {
  room_id = "rs1-0aff";
  server_id = "rs1";
  server_addr = "10.0.0.1:9000";
  match_id = "default-5-1";
  room_token = "t";
  expire_at = 60_001;
}

first_call : (allocate_room stamped (at 1_000_000) start 7 "  ").1 ≡ ok first_answer
unfolding allocate_room generate lookup create_room find_available_room to_allocate_result
    trim_space prune_empty_rooms reservation_for hex decimal
first_call = refl

abbrev calls : List Call
calls =
    record { env = at 1_000_000; player = 7; mode = "" }
    ∷ record { env = at 2_000_000; player = 8; mode = "default" }
    ∷ record { env = at 3_000_000; player = 9; mode = " duel " }
    ∷ []

reachable-Inv_example : Inv (run stamped start calls)
reachable-Inv_example = reachable-Inv stamped config start calls started

allocate_room-Inv_example : Inv (allocate_room stamped (at 4_000_000) start 7 "duel").0
allocate_room-Inv_example = allocate_room-Inv stamped (at 4_000_000) start 7 "duel" start-Inv

new_matcher-Inv_example : Inv start
new_matcher-Inv_example = new_matcher-Inv config start started

within_capacity_example :
    All (λ s. length s.rooms ≤ s.max_rooms) (run stamped start calls).servers
    × AllRooms (λ t r. length r.reservations ≤ t.max_players) (run stamped start calls).servers
    × AllRooms Names (run stamped start calls).servers
within_capacity_example = within_capacity stamped config start calls started

-- The reservation of player 7 after the first call.
abbrev seven : Reservation
seven = record {
  key = record { player_id = 7; mode = "default" };
  server_id = "rs1";
  server_addr = "10.0.0.1:9000";
  room_id = "rs1-0aff";
  match_id = "default-5-1";
  room_token = "t";
  expire_at = 60_001_000_000;
  room = 0;
}

seven_held :
    find (record { player_id = 7; mode = "default" }) (run stamped start calls).reservations
    ≡ some seven
unfolding run allocate_room generate lookup insert create_room find_available_room update_room
    trim_space prune_empty_rooms reservation_for hex decimal key_discrete
seven_held = refl

seated_once_example :
    (occurrences 0 (run stamped start calls).servers ≡ 1)
    × AllRooms
        (λ t r.
          find (record { player_id = 7; mode = "default" }) r.reservations
          ≡ (if 0 == r.ref then some seven else none))
        (run stamped start calls).servers
seated_once_example =
    seated_once stamped config start calls (record { player_id = 7; mode = "default" }) seven
      started seven_held

find-purge_example :
    find
      (asked_key 7 "")
      (purge_expired_reservations 60_001_000_000 (run stamped start calls)).reservations
    ≡ live 60_001_000_000 (find (asked_key 7 "") (run stamped start calls).reservations)
find-purge_example =
    find-purge 60_001_000_000 (run stamped start calls) (asked_key 7 "")
      (reachable-Inv stamped config start calls started)

stored_of_ok_example :
    (r : Reservation) × (first_answer ≡ to_allocate_result r)
    × ((j : ReservationKey)
        → find j (allocate_room stamped (at 1_000_000) start 7 "  ").0.reservations
          ≡ ite (key_discrete (asked_key 7 "  ") j) (some r) (live 1_000_000 (find j [])))
stored_of_ok_example =
    stored_of_ok stamped (at 1_000_000) start 7 "  " start-Inv first_answer first_call

replay_example :
    (allocate_room stamped
      (at 60_000_000_000)
      (allocate_room stamped (at 1_000_000) start 7 "  ").0
      7
      "  ").1
    ≡ ok first_answer
replay_example =
    replay stamped stamped (at 1_000_000) (at 60_000_000_000) start 7 "  " first_answer start-Inv
      first_call (omega arith)

others_untouched_example :
    find
      (asked_key 8 "")
      (allocate_room stamped (at 4_000_000) (run stamped start calls) 7 "").0.reservations
    ≡ live 4_000_000 (find (asked_key 8 "") (run stamped start calls).reservations)
others_untouched_example =
    others_untouched stamped (at 4_000_000) (run stamped start calls) 7 ""
      (reachable-Inv stamped config start calls started) (asked_key 8 "") (omega arith)
      (λ e. omega (arith, ap (λ (k : ReservationKey). k.player_id) e))

-- A third player finds the only room full.
full_call :
    (allocate_room stamped (at 5_000_000) (run stamped start calls) 9 "").1 ≡ err room_server_full
unfolding run allocate_room generate lookup insert create_room find_available_room update_room
    trim_space prune_empty_rooms reservation_for hex decimal key_discrete
full_call = refl

refused_reserves_nothing_example :
    (find
        (asked_key 8 "")
        (allocate_room stamped (at 5_000_000) (run stamped start calls) 9 "").0.reservations
      ≡ live 5_000_000 (find (asked_key 8 "") (run stamped start calls).reservations))
    ⊎ ((◌≡◌ {A = ℕ} 9 0)
        × ((allocate_room stamped (at 5_000_000) (run stamped start calls) 9 "").0
            ≡ run stamped start calls))
refused_reserves_nothing_example =
    refused_reserves_nothing stamped (at 5_000_000) (run stamped start calls) 9 ""
      (reachable-Inv stamped config start calls started) room_server_full (asked_key 8 "") full_call

nine_absent :
    find
      (asked_key 9 "")
      (purge_expired_reservations 5_000_000 (run stamped start calls)).reservations
    ≡ none
unfolding purge_expired_reservations run allocate_room generate lookup insert create_room
    find_available_room update_room trim_space prune_empty_rooms reservation_for hex decimal
    key_discrete
nine_absent = refl

allocate_room-IsFull_example :
    ((allocate_room stamped (at 5_000_000) (run stamped start calls) 9 "").1 ≡ err room_server_full)
    ↔ All
        (IsFull (normalize_match_mode ""))
        (purge_expired_reservations 5_000_000 (run stamped start calls)).servers
allocate_room-IsFull_example =
    allocate_room-IsFull stamped (at 5_000_000) (run stamped start calls) 9 "" (omega arith)
      nine_absent
