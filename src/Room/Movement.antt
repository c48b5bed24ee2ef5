-- ===== src/Room/Movement.antt =====
-- roomserver/logic/movement.go: what a client's input becomes, and the movement that it asks for.
use demo_server.Prelude.{
  ℕ, Bool, true, false, Option, none, some, ◌&&◌, ◌||◌, not, ◌==◌, leb, if◌then◌else◌,
}
use demo_server.Prelude.Int.{pos, negsuc}
use demo_server.Float.{Float}
use demo_server.Room.State.{Vector3, PlayerInput, AuthoritativeInput, Player, MoveRequest}
use demo_server.Room.Vector.{
  dot, vector_length, scale, add_vector, sub_vector, sqr_magnitude, normalize,
}

module _ {F : Type 0} (fl : Float F) where
  open fl use {ratio, add, sub, mul, div, neg, less, same, sqrt, sin, cos, fmod, pi, is_nan, is_inf}

  unfoldable pub is_finite : F → Bool
  is_finite v = not (is_nan v) && not (is_inf v)

  unfoldable pub clamp_float : F → F → F → F
  clamp_float value low high =
      if less value low then low else if less high value then high else value

  unfoldable pub normalize_degrees : F → F
  normalize_degrees angle =
      let a = fmod angle (ratio (pos 360) 1) in
      let b = if less (ratio (pos 180) 1) a then sub a (ratio (pos 360) 1) else a in
      if less b (ratio (negsuc 179) 1) then add b (ratio (pos 360) 1) else b

  abbrev finite_input : PlayerInput F → Bool
  finite_input i = is_finite i.move_x && is_finite i.move_z && is_finite i.yaw && is_finite i.pitch

  -- The two parts of the stick, shortened to length 1 where they are longer.
  unfoldable pub unit_stick : F → F → F × F
  unfolding clamp_float
  unit_stick x z =
      let mx = clamp_float x (ratio (negsuc 0) 1) (ratio (pos 1) 1) in
      let mz = clamp_float z (ratio (negsuc 0) 1) (ratio (pos 1) 1) in
      let length = sqrt (add (mul mx mx) (mul mz mz)) in
      if less (ratio (pos 1) 1) length then (div mx length, div mz length) else (mx, mz)

  unfoldable pub sanitize_player_input : Option (PlayerInput F) → Option (AuthoritativeInput F)
  unfolding is_finite unit_stick normalize_degrees clamp_float
  sanitize_player_input none = none
  sanitize_player_input (some i) =
      if not (finite_input i)
      then none
      else some (record {
        client_tick = i.client_tick;
        move_x = (unit_stick i.move_x i.move_z).0;
        move_z = (unit_stick i.move_x i.move_z).1;
        yaw = normalize_degrees i.yaw;
        pitch = clamp_float i.pitch (ratio (negsuc 88) 1) (ratio (pos 89) 1);
        fire = i.fire;
        jump = i.jump;
        squat = i.squat;
      })

  unfoldable pub apply_view_rotation : Player F → AuthoritativeInput F → Player F
  apply_view_rotation p i = record p { yaw = i.yaw; pitch = i.pitch }

  unfoldable pub movement_direction : F → F → F → Vector3 F
  movement_direction yaw move_x move_z =
      let rad = div (mul yaw pi) (ratio (pos 180) 1) in
      record {
        x = add (mul (sin rad) move_z) (mul (cos rad) move_x);
        y = ratio (pos 0) 1;
        z = add (mul (cos rad) move_z) (mul (neg (sin rad)) move_x);
      }

  unfoldable pub view_direction : F → F → Vector3 F
  view_direction yaw pitch =
      let yaw_rad = div (mul yaw pi) (ratio (pos 180) 1) in
      let pitch_rad = div (mul pitch pi) (ratio (pos 180) 1) in
      let cos_pitch = cos pitch_rad in
      record { x = mul (sin yaw_rad) cos_pitch; y = sin pitch_rad; z = mul (cos yaw_rad) cos_pitch }

  -- The last direction without its part against the new one.
  unfoldable pub settle_last_move : Vector3 F → Vector3 F → Vector3 F
  unfolding dot normalize scale sub_vector vector_length
  settle_last_move last move =
      if less (dot fl last move) (ratio (pos 0) 1)
      then sub_vector fl last
          (scale fl (normalize fl move) (div (dot fl move last) (vector_length fl move)))
      else last

  -- The new direction, held to a change of `da` from the last one.
  unfoldable pub limit_acceleration : F → Vector3 F → Vector3 F → Vector3 F
  unfolding sub_vector sqr_magnitude normalize scale add_vector
  limit_acceleration da last move =
      let change = sub_vector fl move last in
      if less (mul da da) (sqr_magnitude fl change)
      then add_vector fl last (scale fl (normalize fl change) da)
      else move

  abbrev pub gravity : F
  gravity = ratio (negsuc 37) 1

  -- The vertical speed and the ground contact after the jump or the fall of this frame.
  unfoldable pub jump_or_fall : F → Player F → Bool → Player F
  jump_or_fall delta p jump =
      if p.grounded && jump
      then record p {
        vertical_velocity = add (ratio (pos 87) 10) (mul gravity delta);
        grounded = false;
      }
      else if not p.grounded
      then record p { vertical_velocity = add p.vertical_velocity (mul gravity delta) }
      else p

  unfoldable pub build_move_player_request :
      Player F → AuthoritativeInput F → ℕ → Player F × Option (MoveRequest F)
  unfolding movement_direction settle_last_move limit_acceleration vector_length normalize scale
      jump_or_fall
  build_move_player_request p i tick_rate =
      if p.id == 0 || leb tick_rate 0
      then (p, none)
      else let delta = div (ratio (pos 1) 1) (ratio (pos tick_rate) 1) in
        let wanted = movement_direction i.yaw i.move_x i.move_z in
        let last = settle_last_move p.last_move wanted in
        let move = limit_acceleration (mul (ratio (pos 20) 1) delta) last wanted in
        let distance =
          if less (ratio (pos 0) 1) (vector_length fl move)
          then mul (ratio (pos 4) 1) delta
          else ratio (pos 0) 1 in
        let flat = scale fl (normalize fl move) distance in
        let slow = if p.crouched && i.squat then scale fl flat (ratio (pos 1) 2) else flat in
        let q = jump_or_fall delta (record p { move = wanted; last_move = move }) i.jump in
        (
          q,
          some (record {
            player_id = q.id;
            delta_time = delta;
            disp = record slow { y = mul q.vertical_velocity delta };
            jump = i.jump;
            squat = i.squat;
            crouched = q.crouched;
            grounded = q.grounded;
            vertical_velocity = q.vertical_velocity;
          }),
        )

  abbrev differs : Bool → Bool → Bool
  differs true b = not b
  differs false b = b

  unfoldable pub should_move_player : MoveRequest F → Bool
  unfolding sqr_magnitude
  should_move_player r =
      less (ratio (pos 0) 1) (sqr_magnitude fl r.disp)
      || r.jump
      || differs r.squat r.crouched
      || not r.grounded
      || not (same r.vertical_velocity (ratio (pos 0) 1))
