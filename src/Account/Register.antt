-- ===== src/Account/Register.antt =====
-- logicserver/logic/auth.go: Register and Login, which work on the users and the tokens.
use demo_server.Prelude.{ℕ, String, Bool, not, ◌||◌, ◌&&◌, ◌==◌}
use demo_server.Prelude.Text.{is_empty, trim_space}
use demo_server.Prelude.Actions.{Result, ok, err, Action, raise, or_raise, guard, ◌>>=◌, ◌>>◌}
use demo_server.Player.State.{User}
use demo_server.Player.Users.{find_by_email, create_user}
use demo_server.Account.Login.{
  AuthError, invalid_login_params, invalid_credential, hash_failed, created_user_invalid,
  LoginResult, AuthLogic, is_valid_password, is_valid_email, normalize_login_email,
  issue_login_tokens, created_result, found_result,
}

module _ {R U : Type 0} (l : AuthLogic R U) where
  open l use {users, to_lower, bcrypt_hash, bcrypt_matches}

  -- The tokens and the users.
  abbrev pub Stores : Type 0
  Stores = R × U

  unfoldable pub on_tokens : {A : Type 0} → Action R AuthError A → Action Stores AuthError A
  on_tokens m (t, u) = let (t', r) = m t in ((t', u), r)

  unfoldable pub insert_account : String → String → Action Stores AuthError User
  insert_account email hash (t, u) =
      let (u', r) = create_user users to_lower email hash u in ((t, u'), created_result r)

  unfoldable pub register : String → String → ℕ → Action Stores AuthError LoginResult
  unfolding on_tokens insert_account is_valid_email is_valid_password normalize_login_email
      issue_login_tokens
  register email_text password_text now =
      let email = normalize_login_email l email_text in
      let password = trim_space password_text in
      do
        guard (is_valid_email l email && is_valid_password password) invalid_login_params
        hash ← or_raise (bcrypt_hash password) hash_failed
        user ← insert_account email hash
        guard (not (user.user_info.user_id == 0 || is_empty user.user_info.email))
            created_user_invalid
        on_tokens (issue_login_tokens l user.user_info.user_id user.user_info.email now)

  -- The two reasons to refuse a user who was found.
  unfoldable pub accepts_password : User → String → Bool
  accepts_password user password =
      not (user.user_info.user_id == 0 || is_empty user.user_info.password_hash)
      && bcrypt_matches user.user_info.password_hash password

  -- Login once the user is looked up.
  unfoldable pub login_found :
      String → Result AuthError User → ℕ → Action Stores AuthError LoginResult
  unfolding on_tokens accepts_password issue_login_tokens
  login_found password (err e) now = raise e
  login_found password (ok user) now = do
    guard (accepts_password user password) invalid_credential
    on_tokens (issue_login_tokens l user.user_info.user_id user.user_info.email now)

  unfoldable pub login : String → String → ℕ → Action Stores AuthError LoginResult
  unfolding login_found is_valid_email is_valid_password normalize_login_email
  login email_text password_text now (t, u) =
      let email = normalize_login_email l email_text in
      let password = trim_space password_text in
      (do
        guard (is_valid_email l email && is_valid_password password) invalid_login_params
        login_found password (found_result (find_by_email users to_lower email u)) now)
        (t, u)
