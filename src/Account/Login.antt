-- ===== src/Account/Login.antt =====
-- logicserver/logic/auth.go: registration, login and the check of a token. bcrypt, mail.ParseAddress,
-- strings.ToLower and SHA-256 are parameters.
use demo_server.Prelude.{
  ℕ, String, Bool, true, false, not, ◌||◌, ◌&&◌, Option, none, some, ◌==◌, leb, if◌then◌else◌, ite,
}
use Prim.Native.String.{len}
use demo_server.Prelude.Text.{is_empty, trim_space, string_discrete}
use demo_server.Prelude.Actions.{Result, ok, err, Action, pure, raise, lift, guard, ◌>>=◌, ◌>>◌}
use demo_server.Account.Signing.{
  JwtGo, JwtConfig, JwtClaims, JwtError, ParseError, generate_token, verify_access_token,
  refresh_access_token,
}
use demo_server.Account.Redis.{Redis}
use demo_server.Account.Sessions.{
  TokenError, TokenSession, save_login_tokens, save_access_token, get_access_session,
  get_refresh_session,
}
use demo_server.Player.State.{User}
use demo_server.Player.Users.{UserError, user_already_exists, user_not_found, UserStore}

pub data AuthError : Type 0 where
  invalid_login_params invalid_credential account_already_exist unauthorized : AuthError
  hash_failed created_user_invalid : AuthError
  generate_failed : JwtError → AuthError
  token_error : TokenError → AuthError
  user_error : UserError → AuthError

-- LoginRegisterResult
pub record LoginResult : Type 0 where
  pub user_id : ℕ
  pub email : String
  pub access_token : String
  pub refresh_token : String

-- AuthLogic: its tools, configuration and the two stores, the tokens in R and the users in U.
pub record AuthLogic (R U : Type 0) : Type 0 where
  pub users : UserStore U
  pub tokens : Redis R
  pub jwt : JwtGo
  pub jwt_config : Option JwtConfig
  pub access_ttl : ℕ
  pub refresh_ttl : ℕ
  pub token_hash : String → String
  pub to_lower : String → String
  pub parse_address : String → Option String  -- the address in what mail.ParseAddress returns
  pub bcrypt_hash : String → Option String  -- bcrypt.GenerateFromPassword, at one use
  pub bcrypt_matches : String → String → Bool  -- bcrypt.CompareHashAndPassword

abbrev pub same_text : String → String → Bool
same_text s t = ite (string_discrete s t) true false

-- len([]byte(password)) <= 72
unfoldable pub is_valid_password : String → Bool
is_valid_password password = not (is_empty password) && leb (len password) 72

abbrev pub address_is : Option String → String → Bool
address_is none email = false
address_is (some address) email = same_text address email

-- The errors of the token store and of jwt pass through.
abbrev pub token_result : {A : Type 0} → Result TokenError A → Result AuthError A
token_result (ok a) = ok a
token_result (err e) = err (token_error e)

abbrev pub jwt_result : {A : Type 0} → Result JwtError A → Result AuthError A
jwt_result (ok a) = ok a
jwt_result (err e) = err (generate_failed e)

abbrev pub or_unauthorized : {E A : Type 0} → Result E A → Result AuthError A
or_unauthorized (ok a) = ok a
or_unauthorized (err e) = err unauthorized

-- What Register and Login make of an error of the users.
abbrev pub created_result : Result UserError User → Result AuthError User
created_result (ok u) = ok u
created_result (err user_already_exists) = err account_already_exist
created_result (err e) = err (user_error e)

abbrev pub found_result : Result UserError User → Result AuthError User
found_result (ok u) = ok u
found_result (err user_not_found) = err invalid_credential
found_result (err e) = err (user_error e)

module _ {R U : Type 0} (l : AuthLogic R U) where
  open l use {
    users, tokens, jwt, jwt_config, access_ttl, refresh_ttl, token_hash, to_lower, parse_address,
    bcrypt_hash, bcrypt_matches,
  }

  unfoldable pub normalize_login_email : String → String
  normalize_login_email email = to_lower (trim_space email)

  unfoldable pub is_valid_email : String → Bool
  is_valid_email email = not (is_empty email) && address_is (parse_address email) email

  unfoldable pub save_tokens : (R → R × Result TokenError Unit) → Action R AuthError Unit
  save_tokens m s = let (s', r) = m s in (s', token_result r)

  unfoldable pub issue_login_tokens : ℕ → String → ℕ → Action R AuthError LoginResult
  unfolding save_tokens
  issue_login_tokens user_id email now = do
    guard (not (user_id == 0 || is_empty (trim_space email))) invalid_credential
    (access, refresh) ← lift (jwt_result (generate_token jwt jwt_config user_id email now))
    save_tokens
        (save_login_tokens tokens token_hash user_id email access refresh access_ttl refresh_ttl)
    pure (record {
      user_id = user_id;
      email = email;
      access_token = access;
      refresh_token = refresh;
    })

  -- verifyActiveAccessToken: the session of the token must be the claims' and the refresh token's.
  unfoldable pub accepts_session : TokenSession → ℕ → String → String → Bool
  accepts_session session user_id email refresh =
      session.user_id == user_id
      && (is_empty session.email || is_empty email || same_text session.email email)
      && (is_empty refresh || same_text session.refresh_hash (token_hash refresh))

  unfoldable pub verify_active_access_token :
      String → String → JwtClaims → R → Result AuthError LoginResult
  unfolding accepts_session
  verify_active_access_token access refresh claims s =
      elim (get_access_session tokens token_hash access s) [
        | err e ↦ err unauthorized
        | ok session ↦
            if accepts_session session claims.user_id claims.email refresh
            then ok (record {
              user_id = claims.user_id;
              email = claims.email;
              access_token = access;
              refresh_token = refresh;
            })
            else err unauthorized
      ]

  unfoldable pub matches_session : JwtClaims → TokenSession → Bool
  matches_session claims session =
      claims.user_id == session.user_id && same_text claims.email session.email

  unfoldable pub renew_session : String → TokenSession → ℕ → Action R AuthError LoginResult
  unfolding matches_session save_tokens
  renew_session refresh session now = do
    (access, claims) ← lift (or_unauthorized (refresh_access_token jwt jwt_config refresh now))
    guard (matches_session claims session) unauthorized
    save_tokens
        (save_access_token tokens token_hash claims.user_id claims.email access refresh access_ttl)
    pure (record {
      user_id = claims.user_id;
      email = claims.email;
      access_token = access;
      refresh_token = refresh;
    })

  unfoldable pub refresh_session : String → ℕ → Action R AuthError LoginResult
  unfolding renew_session
  refresh_session refresh now s =
      (do
        session ← lift (or_unauthorized (get_refresh_session tokens token_hash refresh s))
        renew_session refresh session now)
        s

  -- VerifyToken once the access token is parsed.
  unfoldable pub verify_parsed :
      String → String → Result ParseError JwtClaims → ℕ → Action R AuthError LoginResult
  unfolding verify_active_access_token refresh_session
  verify_parsed access refresh (ok claims) now s =
      (s, verify_active_access_token access refresh claims s)
  verify_parsed access refresh (err e) now s =
      if not e.expired || is_empty refresh
      then (s, err unauthorized)
      else refresh_session refresh now s

  unfoldable pub verify_token : String → String → ℕ → Action R AuthError LoginResult
  unfolding verify_parsed
  verify_token access_token refresh_token now =
      let access = trim_space access_token in
      let refresh = trim_space refresh_token in
      if is_empty access
      then raise unauthorized
      else verify_parsed access refresh (verify_access_token jwt jwt_config access now) now
