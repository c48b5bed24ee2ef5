-- ===== src/World/Aoi.antt =====
-- roomserver/logic/aoi.go: the filter of the players that a player is shown. math.Atan2 is a
-- parameter; the angle goes only into the log, which is not modelled.
use demo_server.Prelude.{
  ℕ, zero, suc, Bool, not, ◌&&◌, Option, none, some, List, [], ◌∷◌, ◌==◌, if◌then◌else◌,
}
use demo_server.Prelude.Int.{pos, negsuc}
use demo_server.Float.{Float}
use demo_server.Room.State.{Player}
use demo_server.World.{zero_float}
use demo_server.World.Rays.{at_most}

-- SimpleAOIFilter; its view angle goes only into the log.
pub record AoiFilter (F : Type 0) : Type 0 where
  pub visible_distance : F

module _ {F : Type 0} (fl : Float F) where
  open fl use {ratio, add, sub, mul, div, less, sqrt, pi}

  -- The first loop of normalizeAngle, on fuel.
  unfoldable pub lower_angle : ℕ → F → Option F
  lower_angle zero angle = none
  lower_angle (suc fuel) angle =
      let rest = lower_angle fuel (sub angle (ratio (pos 360) 1)) in
      if less (ratio (pos 180) 1) angle then rest else some angle

  -- The second.
  unfoldable pub raise_angle : ℕ → F → Option F
  raise_angle zero angle = none
  raise_angle (suc fuel) angle =
      let rest = raise_angle fuel (add angle (ratio (pos 360) 1)) in
      if less angle (ratio (negsuc 179) 1) then rest else some angle

  abbrev pub then_raise : ℕ → Option F → Option F
  unfolding raise_angle
  then_raise fuel none = none
  then_raise fuel (some angle) = raise_angle fuel angle

  unfoldable pub normalize_angle : ℕ → F → Option F
  unfolding lower_angle then_raise
  normalize_angle fuel angle = then_raise fuel (lower_angle fuel angle)

  unfoldable pub distance_limit : AoiFilter F → F
  distance_limit f =
      if at_most fl f.visible_distance (zero_float fl) then ratio (pos 80) 1 else f.visible_distance

  unfoldable pub distance_between : Player F → Player F → F
  distance_between self candidate =
      let dx = sub candidate.x self.x in
      let dz = sub candidate.z self.z in sqrt (add (mul dx dx) (mul dz dz))

  -- Whether the filter keeps a candidate.
  unfoldable pub is_visible : AoiFilter F → Player F → Player F → Bool
  unfolding distance_limit distance_between
  is_visible f self candidate =
      not (candidate.id == self.id)
      && candidate.alive
      && not (less (distance_limit f) (distance_between self candidate))

  module _ (atan2 : F → F → F) where
    -- The direction to a candidate against the own view, in degrees.
    unfoldable pub view_angle_to : Player F → Player F → F
    view_angle_to self candidate =
        sub
          (div (mul (atan2 (sub candidate.x self.x) (sub candidate.z self.z)) (ratio (pos 180) 1))
            pi)
          self.yaw

  module _ (atan2 : F → F → F) (fuel : ℕ) where
    abbrev pub keep_if : Bool → Player F → Option (List (Player F)) → Option (List (Player F))
    keep_if b candidate none = none
    keep_if b candidate (some cs) = if b then some (candidate ∷ cs) else some cs

    -- A candidate once its angle is computed.
    abbrev pub with_angle :
        AoiFilter F
        → Player F
        → Player F
        → Option F
        → Option (List (Player F))
        → Option (List (Player F))
    unfolding distance_limit distance_between
    with_angle f self candidate none rest = none
    with_angle f self candidate (some angle) rest =
        keep_if (candidate.alive && not (less (distance_limit f) (distance_between self candidate)))
          candidate rest

    -- FilterVisible: nothing, if the fuel runs out in an angle.
    unfoldable pub filter_visible :
        AoiFilter F → Player F → List (Player F) → Option (List (Player F))
    unfolding view_angle_to normalize_angle with_angle
    filter_visible f self [] = some []
    filter_visible f self (c ∷ cs) =
        let rest = filter_visible f self cs in
        if c.id == self.id
        then rest
        else with_angle f self c (normalize_angle fuel (view_angle_to atan2 self c)) rest
