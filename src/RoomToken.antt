-- ===== src/RoomToken.antt =====
-- pkg/roomtoken/token.go and roomserver/protocol/token.go: the short-lived token that the
-- matchserver signs and the roomserver checks.
pub mod Laws
pub mod Samples
mod Tests
use demo_server.Prelude.{ℕ, ◌+◌, ◌/◌, String, Bool, Option, none, some, not, if◌then◌else◌}
use demo_server.Prelude.Int.{ℤ, positive_or}
use demo_server.Prelude.Text.{is_empty}

pub record Claims : Type 0 where
  pub player_id : ℕ
  pub room_id : String
  pub server_id : String
  pub match_id : String
  pub nonce : String
  pub expires_at : ℕ  -- StandardClaims.ExpiresAt, in seconds
  pub issuer : String  -- StandardClaims.Issuer

-- The signing method that a token's header names.
pub data Method : Type 0 where
  hmac other : Method

-- What jwt.ParseWithClaims returns: a token, or an error that may be a ValidationError whose
-- bits say that the token has expired.
pub data ParseOutcome : Type 0 where
  token : Claims → Bool → ParseOutcome
  validation_error : Bool → ParseOutcome
  other_error : ParseOutcome

-- github.com/dgrijalva/jwt-go, as far as the code uses it. The key function that the caller hands
-- to `parse_with_claims` may refuse a method; the last number is the clock in seconds.
pub record Jwt : Type 0 where
  pub signed_string : String → Claims → Option String
  pub parse_with_claims : (Method → Option String) → String → ℕ → ParseOutcome

pub data Error : Type 0 where
  empty_room_token invalid_room_token room_token_expired secret_empty sign_failed parse_failed :
      Error

pub data Result (A : Type 0) : Type 0 where
  ok : A → Result A
  err : Error → Result A

abbrev pub second : ℕ
second = 1_000_000_000

abbrev pub minute : ℕ
minute = 60_000_000_000

-- The claims as they are signed at the time `now`, in nanoseconds.
unfoldable pub stamp : Claims → ℤ → ℕ → Claims
stamp claims expire now = record claims {
  expires_at = (now + positive_or minute expire) / second;
  issuer = "matchserver";
}

abbrev or_sign_failed : Option String → Result String
or_sign_failed none = err sign_failed
or_sign_failed (some t) = ok t

-- The key function: a token that is not signed by an HMAC is refused.
unfoldable pub key_of : String → Method → Option String
key_of secret hmac = some secret
key_of secret other = none

abbrev read_outcome : ParseOutcome → Result Claims
read_outcome (token claims valid) = if not valid then err invalid_room_token else ok claims
read_outcome (validation_error expired) =
    if expired then err room_token_expired else err parse_failed
read_outcome other_error = err parse_failed

module _ (jwt : Jwt) where
  unfoldable pub generate : String → Claims → ℤ → ℕ → Result String
  unfolding stamp
  generate secret claims expire now =
      if is_empty secret
      then err secret_empty
      else or_sign_failed (jwt.signed_string secret (stamp claims expire now))

  unfoldable pub parse : String → String → ℕ → Result Claims
  unfolding key_of
  parse secret token_string now =
      if is_empty token_string
      then err empty_room_token
      else if is_empty secret
      then err secret_empty
      else read_outcome (jwt.parse_with_claims (key_of secret) token_string (now / second))
