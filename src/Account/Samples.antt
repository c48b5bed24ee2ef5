-- ===== src/Account/Samples.antt =====
-- A library that signs one token only, and the store after a login.
use demo_server.Prelude.{
  ℕ, ◌≡◌, refl, String, Option, some, none, true, false, [], ltb, if◌then◌else◌, arith, ite,
  ℕ_discrete,
}
use demo_server.Prelude.Text.{string_discrete, trim_space}
use demo_server.Prelude.Actions.{ok}
use demo_server.RoomToken.{Method, hmac}
use demo_server.Player.Memory.{memory as user_memory, Memory}
use demo_server.Account.Signing.{
  JwtClaims, JwtConfig, TokenOutcome, parsed, validation_error, other_error, JwtGo, generate_token,
  get_config, claims_until,
}
use demo_server.Account.Memory.{Hashes, memory, memory-IsRedis, hash_of}
use demo_server.Account.Sessions.{
  access_token_key, login_commands, save_login_tokens, check_tokens, commit,
}
use demo_server.Account.Login.{
  AuthLogic, LoginResult, issue_login_tokens, verify_token, save_tokens,
}
use demo_server.Account.Issued.{IsJwtGo, verify_token-issue_login_tokens}

-- Issued at second 5 for 60 seconds.
abbrev pub issued : JwtClaims
issued = record { user_id = 7; email = "ann"; expires_at = 65; issuer = "ryann" }

unfoldable pub JwtClaims-discrete : Discrete JwtClaims
JwtClaims-discrete = hlevel (ℕ_discrete, string_discrete)

unfoldable pub sign_one : String → JwtClaims → Option String
sign_one key c =
    ite (string_discrete key "k") (ite (JwtClaims-discrete c issued) (some "t") none) none

unfoldable pub under_key : ℕ → Option String → TokenOutcome
under_key now none = other_error
under_key now (some key) =
    if ltb 65 now
    then validation_error true false
    else ite (string_discrete key "k") (parsed issued true) (validation_error false true)

unfoldable pub parse_one : (Method → Option String) → String → ℕ → TokenOutcome
unfolding under_key
parse_one f t now = ite (string_discrete t "t") (under_key now (f hmac)) other_error

abbrev pub one_token : JwtGo
one_token = record { signed_string = sign_one; parse_with_claims = parse_one }

pub sign_one_inv :
    (key t : String) (c : JwtClaims)
    → sign_one key c ≡ some t
    → (key ≡ "k") × (c ≡ issued) × (t ≡ "t")
unfolding sign_one
sign_one_inv key t c h = ground arith

pub one_token-IsJwtGo : IsJwtGo one_token
unfolding parse_one trim_space
one_token-IsJwtGo = record {
  not_empty = λ key t c h. let (_, _, e) = sign_one_inv key t c h in rw e;
  no_blanks = λ key t c h. let (_, _, e) = sign_one_inv key t c h in rw e;
  accepts = λ key t c f now h p l. let (a, b, e) = sign_one_inv key t c h in ground arith;
}

abbrev pub config : JwtConfig
config = record {
  secret_key = "k";
  token_expire = 60_000_000_000;
  refresh_expire = 60_000_000_000;
  skip_paths = [];
}

abbrev pub auth : AuthLogic Hashes Memory
auth = record {
  users = user_memory;
  tokens = memory;
  jwt = one_token;
  jwt_config = some config;
  access_ttl = 60_000_000_000;
  refresh_ttl = 60_000_000_000;
  token_hash = λ t. t;
  to_lower = λ t. t;
  parse_address = λ t. some t;
  bcrypt_hash = λ t. some t;
  bcrypt_matches = λ h p. ite (string_discrete h p) true false;
}

abbrev pub logged_in : LoginResult
logged_in = record { user_id = 7; email = "ann"; access_token = "t"; refresh_token = "t" }

abbrev pub after_login : Hashes
after_login = (memory.exec (login_commands 7 "ann" "t" "t" 60_000_000_000 60_000_000_000) []).0

pub signed : generate_token one_token (some config) 7 "ann" 5_000_000_000 ≡ ok ("t", "t")
unfolding generate_token sign_one get_config claims_until
signed = ground arith

pub issue : issue_login_tokens auth 7 "ann" 5_000_000_000 [] ≡ (after_login, ok logged_in)
unfolding issue_login_tokens save_tokens save_login_tokens check_tokens commit trim_space
issue = rw signed refl

pub verified : verify_token auth "t" "t" 6_000_000_000 after_login ≡ (after_login, ok logged_in)
verified =
    verify_token-issue_login_tokens auth one_token-IsJwtGo memory-IsRedis 7 "ann" 5_000_000_000
      6_000_000_000 [] after_login logged_in (hash_of (access_token_key "t") after_login) config
      refl issue (omega arith) (omega arith) (omega arith) (omega arith) refl
