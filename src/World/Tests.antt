-- ===== src/World/Tests.antt =====
-- Rays, moves and sights in whole numbers.
use demo_server.Prelude.{ℕ, true, false, none, some, [], ◌∷◌, ◌≡◌, refl, arith, select, ℕ_discrete}
use demo_server.Prelude.Assoc.{lookup, insert}
use demo_server.Float.{Float}
use demo_server.Room.State.{Player, MoveRequest, MoveResult, RaycastRequest}
use demo_server.Room.Samples.{whole_numbers, corner, visitor}
use demo_server.World.{SimpleWorld, RayHit}
use demo_server.World.Rays.{raycast_simple, player_distance, normalized_vector}
use demo_server.World.Simple.{simple_physics}
use demo_server.World.Nearest.{Compares, IsNearest, raycast_simple-IsNearest}
use demo_server.World.Still.{move_player-IsStill}
use demo_server.World.Aoi.{AoiFilter, view_angle_to, is_visible, filter_visible}
use demo_server.World.Seen.{TurnsBack, filter_visible-select}

whole_Compares : Compares whole_numbers
whole_Compares = record {
  at_most_trans = λ a b c h k. ground (arith, h, k);
  at_most_total = λ a b n m h. ground (arith, h);
  at_most_refl = λ a n. ground arith;
}

whole_TurnsBack : TurnsBack whole_numbers
whole_TurnsBack = record {
  sub_high = λ a h. ground (arith, h);
  sub_low = λ a h. ground (arith, h);
  add_low = λ a h. ground (arith, h);
}

-- Three players on a line.
abbrev field : SimpleWorld ℕ
field = record { players = (1, corner 0) ∷ (2, corner 3) ∷ (3, corner 5) ∷ []; closed = false }

abbrev shot : RaycastRequest ℕ
shot = record { origin = corner 0; direction = corner 1; max_distance = 50; ignore_player_id = 1 }

-- The second player is hit first, and the third no sooner.
abbrev second_hit : RayHit ℕ
second_hit = record { hit = true; target_id = 2; point = corner 0; normal = corner 0; distance = 0 }

hit_second : raycast_simple whole_numbers shot field ≡ (some second_hit, none)
unfolding raycast_simple
hit_second = refl

raycast_simple-IsNearest_example :
    IsNearest whole_numbers shot (corner 0) 51 field.players second_hit
unfolding player_distance normalized_vector
raycast_simple-IsNearest_example =
    raycast_simple-IsNearest whole_numbers whole_Compares shot field (corner 0) second_hit refl refl
      (refl, (refl, (refl, tt))) hit_second

abbrev step : MoveRequest ℕ
step = record {
  player_id = 2;
  delta_time = 1;
  disp = corner 4;
  jump = false;
  squat = false;
  crouched = false;
  grounded = true;
  vertical_velocity = 0;
}

-- Where the second player is after it.
abbrev still_there : MoveResult ℕ
still_there = record { position = corner 3; grounded = true; crouched = false }

-- Whole numbers in which the other side of the world ends at 0.
abbrev half_line : Float ℕ
half_line = record whole_numbers { neg = λ a. 0 }

moved : (simple_physics half_line).move_player step field ≡ (field, some still_there)
unfolding simple_physics lookup insert ℕ_discrete
moved = refl

abbrev three : ℕ
three = 3

move_player-IsStill_example :
    (three ≡ 3) × (three ≡ 3) × (lookup ℕ_discrete 2 field.players ≡ some (corner 3))
unfolding lookup ℕ_discrete
move_player-IsStill_example =
    move_player-IsStill half_line step field field (corner 3) still_there refl (refl, refl, refl)
      (refl, refl, refl) moved

abbrev filter : AoiFilter ℕ
filter = record { visible_distance = 50 }

abbrev looker : Player ℕ
looker = visitor 1

filter_visible-select_example :
    filter_visible whole_numbers (λ a b. 0) 2 filter looker (visitor 1 ∷ visitor 2 ∷ [])
    ≡ some (select (is_visible whole_numbers filter looker) (visitor 1 ∷ visitor 2 ∷ []))
unfolding view_angle_to
filter_visible-select_example =
    filter_visible-select whole_numbers whole_TurnsBack (λ a b. 0) filter looker
      (visitor 1 ∷ visitor 2 ∷ []) ((refl, refl), ((refl, refl), tt))
