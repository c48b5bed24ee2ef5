-- ===== src/Account/Sessions.antt =====
-- logicserver/repo/token.go: the login sessions in Redis. SHA-256 and its printing are a parameter.
use demo_server.Prelude.{
  ℕ, String, not, ◌||◌, Option, none, some, List, [], ◌∷◌, ◌==◌, if◌then◌else◌,
}
use Prim.Native.String.{◌++◌}
use demo_server.Prelude.Text.{is_empty, trim_space, decimal, string_discrete}
use demo_server.Prelude.Numbers.{parse_uint}
use demo_server.Prelude.Assoc.{lookup}
use demo_server.Prelude.Actions.{Result, ok, err, Action, guard, ◌>>◌}
use demo_server.Account.Redis.{Fields, Redis, Command, hset, expire}

pub data TokenError : Type 0 where
  session_user_empty token_is_empty save_failed get_failed token_not_found invalid_session_user :
      TokenError

pub record TokenSession : Type 0 where
  pub user_id : ℕ
  pub email : String
  pub access_hash : String
  pub refresh_hash : String

-- values[f]: the empty text where the map has no such key.
abbrev pub field : String → Fields → String
field f values = elim (lookup string_discrete f values) [ none ↦ "" | some v ↦ v ]

abbrev pub access_token_key : String → String
access_token_key hash = "logic:auth:access:" ++ hash

abbrev pub refresh_token_key : String → String
refresh_token_key hash = "logic:auth:refresh:" ++ hash

abbrev pub user_token_key : ℕ → String
user_token_key user_id = "logic:auth:user:" ++ decimal user_id

-- parseTokenSession once the number is read.
abbrev pub session_of : Option ℕ → Fields → String → String → Result TokenError TokenSession
session_of none values access_hash refresh_hash = err invalid_session_user
session_of (some user_id) values access_hash refresh_hash =
    if user_id == 0
    then err invalid_session_user
    else ok (record {
      user_id = user_id;
      email = field "email" values;
      access_hash = access_hash;
      refresh_hash = refresh_hash;
    })

unfoldable pub parse_token_session : Fields → String → String → Result TokenError TokenSession
parse_token_session [] access_hash refresh_hash = err token_not_found
parse_token_session (v ∷ values) access_hash refresh_hash =
    session_of (parse_uint (field "user_id" (v ∷ values))) (v ∷ values) access_hash refresh_hash

-- The three hashes that a login writes.
abbrev pub access_values : ℕ → String → String → Fields
access_values user_id email refresh_hash =
    ("user_id", decimal user_id) ∷ ("email", email) ∷ ("refresh_hash", refresh_hash) ∷ []

abbrev pub refresh_values : ℕ → String → Fields
refresh_values user_id email = ("user_id", decimal user_id) ∷ ("email", email) ∷ []

abbrev pub user_values : String → String → String → Fields
user_values email access_hash refresh_hash =
    ("access_hash", access_hash) ∷ ("refresh_hash", refresh_hash) ∷ ("email", email) ∷ []

-- The transaction of SaveLoginTokens.
abbrev pub login_commands : ℕ → String → String → String → ℕ → ℕ → List Command
login_commands user_id email access_hash refresh_hash access_ttl refresh_ttl =
    hset (access_token_key access_hash) (access_values user_id email refresh_hash)
    ∷ expire (access_token_key access_hash) access_ttl
    ∷ hset (refresh_token_key refresh_hash) (refresh_values user_id email)
    ∷ expire (refresh_token_key refresh_hash) refresh_ttl
    ∷ hset (user_token_key user_id) (user_values email access_hash refresh_hash)
    ∷ expire (user_token_key user_id) refresh_ttl
    ∷ []

-- The transaction of SaveAccessToken.
abbrev pub access_commands : ℕ → String → String → String → ℕ → List Command
access_commands user_id email access_hash refresh_hash access_ttl =
    hset (access_token_key access_hash) (access_values user_id email refresh_hash)
    ∷ expire (access_token_key access_hash) access_ttl
    ∷ hset (user_token_key user_id) (user_values email access_hash refresh_hash)
    ∷ []

-- The checks that both begin with.
unfoldable pub check_tokens : {S : Type 0} → ℕ → String → String → String → Action S TokenError Unit
check_tokens user_id email access refresh = do
  guard (not (user_id == 0 || is_empty (trim_space email))) session_user_empty
  guard (not (is_empty access || is_empty refresh)) token_is_empty

module _ {S : Type 0} (redis : Redis S) (token_hash : String → String) where
  unfoldable pub commit : List Command → Action S TokenError Unit
  commit cs s =
      let (s', failed) = redis.exec cs s in (s', if failed then err save_failed else ok tt)

  unfoldable pub save_login_tokens : ℕ → String → String → String → ℕ → ℕ → Action S TokenError Unit
  unfolding check_tokens commit
  save_login_tokens user_id email access refresh access_ttl refresh_ttl = do
    check_tokens user_id email access refresh
    commit (
        login_commands user_id email (token_hash access) (token_hash refresh) access_ttl
          refresh_ttl)

  unfoldable pub save_access_token : ℕ → String → String → String → ℕ → Action S TokenError Unit
  unfolding check_tokens commit
  save_access_token user_id email access refresh access_ttl = do
    check_tokens user_id email access refresh
    commit (access_commands user_id email (token_hash access) (token_hash refresh) access_ttl)

  unfoldable pub get_access_session : String → S → Result TokenError TokenSession
  unfolding parse_token_session
  get_access_session access s = elim (redis.hget_all (access_token_key (token_hash access)) s) [
    | none ↦ err get_failed
    | some values ↦ parse_token_session values (token_hash access) (field "refresh_hash" values)
  ]

  unfoldable pub get_refresh_session : String → S → Result TokenError TokenSession
  unfolding parse_token_session
  get_refresh_session refresh s = elim (redis.hget_all (refresh_token_key (token_hash refresh)) s) [
    | none ↦ err get_failed
    | some values ↦ parse_token_session values "" (token_hash refresh)
  ]
