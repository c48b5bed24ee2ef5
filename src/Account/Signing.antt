-- ===== src/Account/Signing.antt =====
-- pkg/jwt/jwt.go: the access and refresh tokens, over github.com/dgrijalva/jwt-go as a parameter.
use demo_server.Prelude.{
  ℕ, ◌+◌, ◌/◌, String, Bool, true, false, not, Option, none, some, List, if◌then◌else◌, ite,
}
use demo_server.Prelude.Text.{is_empty, string_discrete}
use demo_server.Prelude.Actions.{Result, ok, err}
use demo_server.RoomToken.{Method, hmac, other, second}

-- The errors of the package.
pub data JwtError : Type 0 where
  not_initialized empty_access_token empty_refresh_token empty_secret_key token_expired : JwtError
  invalid_signature parse_failed invalid_token sign_failed : JwtError

pub record JwtClaims : Type 0 where
  pub user_id : ℕ
  pub email : String
  pub expires_at : ℕ  -- StandardClaims.ExpiresAt, in seconds
  pub issuer : String  -- StandardClaims.Issuer

pub record JwtConfig : Type 0 where
  pub secret_key : String
  pub token_expire : ℕ  -- in nanoseconds
  pub refresh_expire : ℕ
  pub skip_paths : List String

-- What jwt.ParseWithClaims returns: a token, or an error that may be a ValidationError whose bits
-- say that the token has expired and that its signature is wrong.
pub data TokenOutcome : Type 0 where
  parsed : JwtClaims → Bool → TokenOutcome
  validation_error : Bool → Bool → TokenOutcome
  other_error : TokenOutcome

-- jwt-go, as far as the package uses it. The last number is the clock in seconds.
pub record JwtGo : Type 0 where
  pub signed_string : String → JwtClaims → Option String
  pub parse_with_claims : (Method → Option String) → String → ℕ → TokenOutcome

-- An error with the flag that says whether the token has expired.
pub record ParseError : Type 0 where
  pub expired : Bool
  pub cause : JwtError

abbrev failed : JwtError → ParseError
failed e = record { expired = false; cause = e }

-- The pointer to the configuration may be nil.
unfoldable pub get_config : Option JwtConfig → Result JwtError JwtConfig
get_config none = err not_initialized
get_config (some cfg) = if is_empty cfg.secret_key then err empty_secret_key else ok cfg

-- The key function: a token that is not signed by an HMAC is refused.
unfoldable pub hmac_key : JwtConfig → Method → Option String
hmac_key cfg hmac = some cfg.secret_key
hmac_key cfg other = none

unfoldable pub outcome_result : TokenOutcome → Result ParseError JwtClaims
outcome_result (parsed claims valid) = if valid then ok claims else err (failed invalid_token)
outcome_result (validation_error expired signature) =
    if expired
    then err (record { expired = true; cause = token_expired })
    else if signature
    then err (failed invalid_signature)
    else err (failed parse_failed)
outcome_result other_error = err (failed parse_failed)

-- The claims of a token that is signed at `now`, in nanoseconds, and lasts for `expire`.
unfoldable pub claims_until : ℕ → String → ℕ → ℕ → JwtClaims
claims_until user_id email expire now = record {
  user_id = user_id;
  email = email;
  expires_at = (now + expire) / second;
  issuer = "ryann";
}

-- A failed signature is an error of the call.
abbrev pub or_sign_failed : Option String → Result JwtError String
or_sign_failed none = err sign_failed
or_sign_failed (some t) = ok t

abbrev contains : List String → String → Bool
contains List.[] path = false
contains (List.◌∷◌ p ps) path = ite (string_discrete p path) true (contains ps path)

-- A path that an initialised configuration lists.
unfoldable pub should_skip_path : Option JwtConfig → String → Bool
unfolding get_config
should_skip_path conf path = elim (get_config conf) [
  | ok cfg ↦ contains cfg.skip_paths path
  | err e ↦ false
]

-- AuthResult
pub record AuthResult : Type 0 where
  pub claims : JwtClaims
  pub new_access_token : String
  pub refreshed : Bool

module _ (jwt : JwtGo) (conf : Option JwtConfig) where
  unfoldable pub generate_token : ℕ → String → ℕ → Result JwtError (String × String)
  unfolding get_config claims_until
  generate_token user_id email now = elim (get_config conf) [
    | err e ↦ err e
    | ok cfg ↦
        elim (or_sign_failed
          (jwt.signed_string cfg.secret_key (claims_until user_id email cfg.token_expire now))) [
            | err e ↦ err e
            | ok access ↦
                elim (or_sign_failed (
                  jwt.signed_string cfg.secret_key
                    (claims_until user_id email cfg.refresh_expire now))) [
                      | err e ↦ err e
                      | ok refresh ↦ ok (access, refresh)
                    ]
          ]
  ]

  unfoldable pub parse_token : String → ℕ → Result ParseError JwtClaims
  unfolding get_config hmac_key outcome_result
  parse_token token now = elim (get_config conf) [
    | err e ↦ err (failed e)
    | ok cfg ↦
        if is_empty token
        then err (failed empty_access_token)
        else outcome_result (jwt.parse_with_claims (hmac_key cfg) token (now / second))
  ]

  unfoldable pub verify_access_token : String → ℕ → Result ParseError JwtClaims
  unfolding parse_token
  verify_access_token token now =
      if is_empty token then err (failed empty_access_token) else parse_token token now

  -- RefreshAccessToken once the claims of the refresh token are known.
  unfoldable pub renew : JwtConfig → JwtClaims → ℕ → Result JwtError (String × JwtClaims)
  unfolding parse_token claims_until
  renew cfg claims now =
      elim (or_sign_failed (
        jwt.signed_string cfg.secret_key
          (claims_until claims.user_id claims.email cfg.token_expire now))) [
            | err e ↦ err e
            | ok access ↦ elim (parse_token access now) [
              | err e ↦ err e.cause
              | ok new_claims ↦ ok (access, new_claims)
            ]
          ]

  unfoldable pub refresh_access_token : String → ℕ → Result JwtError (String × JwtClaims)
  unfolding get_config parse_token renew
  refresh_access_token refresh now = elim (get_config conf) [
    | err e ↦ err e
    | ok cfg ↦
        if is_empty refresh then err empty_refresh_token else elim (parse_token refresh now) [
          | err e ↦ err e.cause
          | ok claims ↦ renew cfg claims now
        ]
  ]

  -- The fallback of AuthenticateTokens to the refresh token.
  unfoldable pub authenticate_expired : String → ℕ → Result JwtError AuthResult
  unfolding refresh_access_token
  authenticate_expired refresh now =
      if is_empty refresh
      then err empty_refresh_token
      else elim (refresh_access_token refresh now) [
        | err e ↦ err e
        | ok (access, claims) ↦
            ok (record { claims = claims; new_access_token = access; refreshed = true })
      ]

  unfoldable pub authenticate_tokens : String → String → ℕ → Result JwtError AuthResult
  unfolding verify_access_token authenticate_expired
  authenticate_tokens access refresh now = elim (verify_access_token access now) [
    | ok claims ↦ ok (record { claims = claims; new_access_token = ""; refreshed = false })
    | err e ↦ if not e.expired then err e.cause else authenticate_expired refresh now
  ]
