-- ===== src/World/Seen.antt =====
-- roomserver/logic/aoi.go: the loops of the filter come to their end.
use demo_server.Prelude.{
  true, false, some, List, [], ◌∷◌, ◌≡◌, inl, inr, refl, arith, All, select, Bool-cases,
}
use demo_server.Prelude.Int.{pos, negsuc}
use demo_server.Float.{Float}
use demo_server.Room.State.{Player}
use demo_server.World.Aoi.{
  AoiFilter, lower_angle, raise_angle, normalize_angle, is_visible, view_angle_to, filter_visible,
}

-- What float64 gives of 360 against the bounds, with rounding and on what is no number: up to 540
-- one subtraction leaves no more than 180 and no less than -180, and above -540 one addition
-- likewise.
pub record TurnsBack {F : Type 0} (fl : Float F) : Type 0 where
  pub sub_high :
      (a : F)
      → fl.less (fl.ratio (pos 540) 1) a ≡ false
      → fl.less (fl.ratio (pos 180) 1) (fl.sub a (fl.ratio (pos 360) 1)) ≡ false
  pub sub_low :
      (a : F)
      → fl.less (fl.ratio (pos 180) 1) a ≡ true
      → fl.less (fl.sub a (fl.ratio (pos 360) 1)) (fl.ratio (negsuc 179) 1) ≡ false
  pub add_low :
      (a : F)
      → fl.less a (fl.ratio (negsuc 539) 1) ≡ false
      → fl.less (fl.add a (fl.ratio (pos 360) 1)) (fl.ratio (negsuc 179) 1) ≡ false

module _ {F : Type 0} (fl : Float F) (laws : TurnsBack fl) where
  -- An angle of at most one and a half turns to either side.
  abbrev pub IsNear : F → Type 0
  IsNear a =
      (fl.less (fl.ratio (pos 540) 1) a ≡ false) × (fl.less a (fl.ratio (negsuc 539) 1) ≡ false)

  -- Two turns of each loop are enough.
  normalize_angle_ends : (a : F) → IsNear a → (b : F) × (normalize_angle fl 2 a ≡ some b)
  unfolding normalize_angle lower_angle raise_angle
  normalize_angle_ends a n = elim (Bool-cases (fl.less (fl.ratio (pos 180) 1) a)) [
    | inl high ↦ (
      fl.sub a (fl.ratio (pos 360) 1),
      ground (arith, high, laws.sub_high a n.0, laws.sub_low a high),
    )
    | inr not_high ↦ elim (Bool-cases (fl.less a (fl.ratio (negsuc 179) 1))) [
      | inl low ↦
          (fl.add a (fl.ratio (pos 360) 1), ground (arith, not_high, low, laws.add_low a n.1))
      | inr not_low ↦ (a, ground (arith, not_high, not_low))
    ]
  ]

  module _ (atan2 : F → F → F) (f : AoiFilter F) (self : Player F) where
    -- FilterVisible ends, with no more than two turns of a loop for an angle, where every angle to a
    -- candidate is at most one and a half turns; it then answers exactly the living other players
    -- within the distance, in their order.
    pub filter_visible-select :
        (cs : List (Player F))
        → All (λ c. IsNear (view_angle_to fl atan2 self c)) cs
        → filter_visible fl atan2 2 f self cs ≡ some (select (is_visible fl f self) cs)
    unfolding filter_visible is_visible
    filter_visible-select [] n = refl
    filter_visible-select (c ∷ cs) n =
        let (b, ends) = normalize_angle_ends (view_angle_to fl atan2 self c) n.0 in
        ground (arith, ends, filter_visible-select cs n.1)
