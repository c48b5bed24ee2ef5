-- ===== src/Player/State.antt =====
-- logicserver/consts/const.go and the documents of logicserver/repo/user.go.
use demo_server.Prelude.{ℕ, String, Bool, false, Option, none, some, List, [], ◌∷◌, ◌==◌, ◌+◌, ◌||◌}
use demo_server.Prelude.Int.{ℤ, pos_part, neg_part}

pub record Gun : Type 0 where
  pub id : ℤ
  pub price : ℤ
  pub name : String

pub record UserInfo : Type 0 where
  pub user_id : ℕ
  pub email : String
  pub nickname : String
  pub level : ℤ
  pub exp : ℤ
  pub equip_gun : ℤ
  pub coins : ℤ
  pub kill_count : ℤ
  pub profile_photo_id : ℤ
  pub password_hash : String

-- A document: `gun` may be null or missing in an old one.
pub record User : Type 0 where
  pub user_info : UserInfo
  pub gun : Option (List Gun)

-- a == b on signed integers
abbrev pub eq_ℤ : ℤ → ℤ → Bool
eq_ℤ a b = pos_part a + neg_part b == pos_part b + neg_part a

-- A null array of guns decodes to none of them.
abbrev pub guns : User → List Gun
guns u = elim u.gun [ none ↦ [] | some gs ↦ gs ]

abbrev pub owns : ℤ → List Gun → Bool
owns id [] = false
owns id (g ∷ gs) = eq_ℤ g.id id || owns id gs
