-- ===== src/RoomToken/Samples.antt =====
-- A library that signs one token only, for the tests.
use demo_server.Prelude.{
  ℕ, ◌≡◌, String, Option, some, none, true, false, ltb, if◌then◌else◌, arith, ite, ℕ_discrete,
}
use demo_server.Prelude.Text.{string_discrete}
use demo_server.RoomToken.{
  Claims, Method, hmac, ParseOutcome, token, validation_error, other_error, Jwt,
}
use demo_server.RoomToken.Laws.{IsJwt}

abbrev pub asked : Claims
asked = record {
  player_id = 7;
  room_id = "rs1-00ff";
  server_id = "rs1";
  match_id = "default-5-1";
  nonce = "7-5-1";
  expires_at = 0;
  issuer = "";
}

-- Issued at second 5 for 60 seconds.
abbrev pub issued : Claims
issued = record asked { expires_at = 65; issuer = "matchserver" }

unfoldable pub Claims-discrete : Discrete Claims
Claims-discrete = hlevel (ℕ_discrete, string_discrete)

unfoldable pub sign_one : String → Claims → Option String
sign_one secret c =
    ite (string_discrete secret "k") (ite (Claims-discrete c issued) (some "t") none) none

unfoldable pub under_key : ℕ → Option String → ParseOutcome
under_key now none = other_error
under_key now (some key) =
    if ltb 65 now
    then validation_error true
    else ite (string_discrete key "k") (token issued true) (validation_error false)

unfoldable pub parse_one : (Method → Option String) → String → ℕ → ParseOutcome
unfolding under_key
parse_one f t now = ite (string_discrete t "t") (under_key now (f hmac)) other_error

abbrev pub one_token : Jwt
one_token = record { signed_string = sign_one; parse_with_claims = parse_one }

pub sign_one_inv :
    (secret t : String) (c : Claims)
    → sign_one secret c ≡ some t
    → (secret ≡ "k") × (c ≡ issued) × (t ≡ "t")
unfolding sign_one
sign_one_inv secret t c h = ground arith

pub one_token-IsJwt : IsJwt one_token
unfolding parse_one
one_token-IsJwt = record {
  not_empty = λ secret t c h. let (_, _, e) = sign_one_inv secret t c h in rw e;
  accepts = λ secret t c f now h p k. let (a, b, e) = sign_one_inv secret t c h in ground arith;
  rejects = λ secret key t c f now h p k differ.
      let (a, b, e) = sign_one_inv secret t c h in ground arith;
}
