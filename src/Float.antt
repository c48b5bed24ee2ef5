-- ===== src/Float.antt =====
-- Go's float64 as an abstract type, and the operations that the code uses of the
-- language and of package math. `ratio n d` is the constant n / d.
use demo_server.Prelude.{ℕ, Bool}
use demo_server.Prelude.Int.{ℤ}

pub record Float (F : Type 0) : Type 0 where
  pub ratio : ℤ → ℕ → F
  pub add : F → F → F
  pub sub : F → F → F
  pub mul : F → F → F
  pub div : F → F → F
  pub neg : F → F
  pub less : F → F → Bool  -- a < b
  pub same : F → F → Bool  -- a == b
  pub sqrt : F → F
  pub sin : F → F
  pub cos : F → F
  pub fmod : F → F → F  -- math.Mod
  pub pi : F
  pub is_nan : F → Bool
  pub is_inf : F → Bool
