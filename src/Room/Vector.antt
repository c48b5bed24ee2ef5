-- ===== src/Room/Vector.antt =====
-- roomserver/logic/player.go and physics.go: vectors over float64.
use demo_server.Prelude.{if◌then◌else◌}
use demo_server.Prelude.Int.{pos}
use demo_server.Float.{Float}
use demo_server.Room.State.{Vector3}

module _ {F : Type 0} (fl : Float F) where
  open fl use {ratio, add, sub, mul, div, same, sqrt}

  unfoldable pub zero_vector : Vector3 F
  zero_vector = record { x = ratio (pos 0) 1; y = ratio (pos 0) 1; z = ratio (pos 0) 1 }

  unfoldable pub dot : Vector3 F → Vector3 F → F
  dot v o = add (add (mul v.x o.x) (mul v.y o.y)) (mul v.z o.z)

  unfoldable pub vector_length : Vector3 F → F
  vector_length v = sqrt (add (add (mul v.x v.x) (mul v.y v.y)) (mul v.z v.z))

  unfoldable pub scale : Vector3 F → F → Vector3 F
  scale v s = record { x = mul v.x s; y = mul v.y s; z = mul v.z s }

  unfoldable pub add_vector : Vector3 F → Vector3 F → Vector3 F
  add_vector v o = record { x = add v.x o.x; y = add v.y o.y; z = add v.z o.z }

  unfoldable pub sub_vector : Vector3 F → Vector3 F → Vector3 F
  sub_vector v o = record { x = sub v.x o.x; y = sub v.y o.y; z = sub v.z o.z }

  unfoldable pub sqr_magnitude : Vector3 F → F
  sqr_magnitude v = add (add (mul v.x v.x) (mul v.y v.y)) (mul v.z v.z)

  unfoldable pub normalize : Vector3 F → Vector3 F
  unfolding vector_length zero_vector
  normalize v =
      let length = vector_length v in
      if same length (ratio (pos 0) 1)
      then zero_vector
      else record { x = div v.x length; y = div v.y length; z = div v.z length }
