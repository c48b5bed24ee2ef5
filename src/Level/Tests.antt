-- ===== src/Level/Tests.antt =====
-- Levels of some experiences, and the theorem at work on one.
use demo_server.Prelude.{◌+◌, ◌≡◌, refl}
use demo_server.Prelude.Int.{pos}
use demo_server.Level.{levels, judge_player_level}
use demo_server.Level.Search.{exceeded, judge_player_level-exceeded}

-- One point is enough for level 2, and more than 5000 give level 6.
beginner : judge_player_level (pos 1) ≡ 2
unfolding judge_player_level
beginner = refl

past_the_table : judge_player_level (pos 5001) ≡ 6
unfolding judge_player_level
past_the_table = refl

judge_player_level-exceeded_example : judge_player_level (pos 500) ≡ exceeded (pos 500) levels + 1
judge_player_level-exceeded_example = judge_player_level-exceeded (pos 500)
