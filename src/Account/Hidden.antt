-- ===== src/Account/Hidden.antt =====
-- logicserver/logic/auth.go: the answers of Login.
use demo_server.Prelude.{ℕ, String, true, false, ◌&&◌, ◌≡◌, refl}
use demo_server.Prelude.Text.{trim_space}
use demo_server.Prelude.Actions.{Result, ok, err}
use demo_server.Player.State.{User}
use demo_server.Player.Users.{UserError, user_not_found, find_by_email}
use demo_server.Account.Login.{
  invalid_credential, AuthLogic, is_valid_email, is_valid_password, normalize_login_email,
  found_result,
}
use demo_server.Account.Register.{login, login_found, accepts_password}

module _ {R U : Type 0} (l : AuthLogic R U) (email_text password_text : String) (now : ℕ) (t : R)
    (u : U) where
  abbrev email : String
  email = normalize_login_email l email_text

  abbrev password : String
  password = trim_space password_text

  -- What is typed could be an account.
  abbrev pub IsWellFormed : Type 0
  IsWellFormed = (is_valid_email l email && is_valid_password password) ≡ true

  -- Nobody has the email, or its user does not have the password.
  abbrev pub IsWrong : Result UserError User → Type 0
  IsWrong (err e) = e ≡ user_not_found
  IsWrong (ok user) = accepts_password l user password ≡ false

  login_found-refused :
      (r : Result UserError User)
      → IsWrong r
      → login_found l password (found_result r) now (t, u) ≡ ((t, u), err invalid_credential)
  unfolding login_found
  login_found-refused (err e) h = rw h refl
  login_found-refused (ok user) h = rw h refl

  -- With well-formed input Login answers one and the same error to an email that nobody has and to
  -- a password that is not its user's, and changes neither the users nor the tokens.
  pub login-refused :
      IsWellFormed
      → IsWrong (find_by_email l.users l.to_lower email u)
      → login l email_text password_text now (t, u) ≡ ((t, u), err invalid_credential)
  unfolding login
  login-refused w h = rw w (login_found-refused (find_by_email l.users l.to_lower email u) h)
