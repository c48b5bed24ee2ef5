-- ===== src/Room/Samples.antt =====
-- A world of whole numbers for the tests of a room: coordinates, physics and players.
use demo_server.Prelude.{
  ℕ, ◌+◌, ◌-◌, ◌*◌, ◌/◌, ◌%◌, true, false, none, some, List, [], ◌∷◌, ltb, ◌==◌,
}
use demo_server.Prelude.Int.{ℤ, pos, negsuc}
use demo_server.Float.{Float}
use demo_server.Room.State.{Vector3, Player, Physics, Room}
use demo_server.Room.Create.{new_room}

abbrev pub whole : ℤ → ℕ
whole (pos n) = n
whole (negsuc n) = 0

abbrev pub whole_numbers : Float ℕ
whole_numbers = record {
  ratio = λ n d. whole n;
  add = λ a b. a + b;
  sub = λ a b. a - b;
  mul = λ a b. a * b;
  div = λ a b. a / b;
  neg = λ a. a;
  less = λ a b. ltb a b;
  same = λ a b. a == b;
  sqrt = λ a. a;
  sin = λ a. a;
  cos = λ a. a;
  fmod = λ a b. a % b;
  pi = 3;
  is_nan = λ a. false;
  is_inf = λ a. false;
}

abbrev pub corner : ℕ → Vector3 ℕ
corner n = record { x = n; y = 0; z = n }

-- A world that takes every player in, moves it where it wants to and has player 2 before each gun.
abbrev pub open_field : Physics ℕ Unit
open_field = record {
  add_player = λ id v w. (w, none);
  remove_player = λ id w. (w, none);
  move_player =
      λ q w. (w, some (record { position = q.disp; grounded = true; crouched = q.squat }));
  set_player_position = λ id v w. (w, none);
  raycast = λ q w. (w, some (record { hit = true; target_id = 2 }));
  spawn_points = λ w.
      record { id = "north"; position = corner 1; yaw = 0 }
      ∷ record { id = "south"; position = corner 9; yaw = 180 }
      ∷ [];
  close = λ w. (w, none);
}

abbrev pub see_all : Player ℕ → List (Player ℕ) → List (Player ℕ)
see_all p all = all

abbrev pub visitor : ℕ → Player ℕ
visitor id = record {
  id = id;
  room_id = "";
  x = 0;
  y = 0;
  z = 0;
  yaw = 0;
  pitch = 0;
  hp = 100;
  kill_count = 0;
  death_count = 0;
  spawn_id = "";
  session = "s";
  alive = true;
  invincible_until_tick = 0;
  vertical_velocity = 0;
  grounded = true;
  crouched = false;
  gun_id = pos 0;
  move = corner 0;
  last_move = corner 0;
}

-- A room for two, at 20 frames a second, for a match of 100 ms.
unfoldable pub small_room : Room ℕ Unit
unfolding new_room
small_room = new_room "r" (pos 2) (pos 20) (pos 20) tt (pos 2) "map" "hash" (pos 100_000_000)
