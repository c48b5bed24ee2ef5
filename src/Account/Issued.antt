-- ===== src/Account/Issued.antt =====
-- logicserver/logic/auth.go: the tokens of a login at the check of a token.
use demo_server.Prelude.{
  ℕ, ◌≤◌, ◌<◌, ◌/◌, ◌+◌, ◌^◌, String, true, false, Option, some, ◌≡◌, refl, sym, ap, ◌∙◌, subst,
  arith, ◌==◌,
}
use demo_server.Prelude.Text.{is_empty, trim_space}
use demo_server.Prelude.Actions.{ok}
use demo_server.RoomToken.{second, Method, hmac}
use demo_server.Account.Signing.{
  JwtGo, JwtClaims, JwtConfig, parsed, parse_token, verify_access_token, generate_token,
  claims_until, get_config, hmac_key, outcome_result,
}
use demo_server.Account.Redis.{IsRedis, Fields}
use demo_server.Account.Fields.{login_hash, login_hash-session}
use demo_server.Account.Sessions.{
  TokenSession, get_access_session, access_token_key, login_commands, save_login_tokens,
  check_tokens, commit, field, parse_token_session,
}
use demo_server.Account.Login.{
  LoginResult, AuthLogic, verify_token, verify_parsed, verify_active_access_token, accepts_session,
  same_text, issue_login_tokens, save_tokens,
}

-- What jwt-go documents of the tokens it signs: no blanks and not empty, and parsed with the key
-- that they were signed with they give their claims until they expire.
pub record IsJwtGo (jwt : JwtGo) : Type 0 where
  pub not_empty :
      (key t : String) (c : JwtClaims) → jwt.signed_string key c ≡ some t → is_empty t ≡ false
  pub no_blanks :
      (key t : String) (c : JwtClaims) → jwt.signed_string key c ≡ some t → trim_space t ≡ t
  pub accepts :
      (key t : String) (c : JwtClaims) (f : Method → Option String) (now : ℕ)
      → jwt.signed_string key c ≡ some t
      → f hmac ≡ some key
      → now ≤ c.expires_at
      → jwt.parse_with_claims f t now ≡ parsed c true

module _ (jwt : JwtGo) (cfg : JwtConfig) (user_id : ℕ) (email access refresh : String)
    (now : ℕ) where
  -- What a successful GenerateToken has signed.
  abbrev Generated : Type 0
  Generated =
      (is_empty cfg.secret_key ≡ false)
      × (jwt.signed_string cfg.secret_key (claims_until user_id email cfg.token_expire now)
          ≡ some access)
      × (jwt.signed_string cfg.secret_key (claims_until user_id email cfg.refresh_expire now)
          ≡ some refresh)

  generated_of_ok :
      generate_token jwt (some cfg) user_id email now ≡ ok (access, refresh) → Generated
  unfolding generate_token get_config
  generated_of_ok e = ground (arith, e)

  module _ (laws : IsJwtGo jwt) where
    parse_token_lem :
        (later : ℕ)
        → later / second ≤ (now + cfg.token_expire) / second
        → Generated
        → parse_token jwt (some cfg) access later
          ≡ ok (claims_until user_id email cfg.token_expire now)
    unfolding parse_token get_config outcome_result claims_until hmac_key
    parse_token_lem later h g =
        let c = claims_until user_id email cfg.token_expire now in
        let full = laws.not_empty cfg.secret_key access c g.1 in
        let read =
          laws.accepts cfg.secret_key access c (hmac_key cfg) (later / second) g.1 refl h in
        ground (arith, full, g, read)

    verify_access_token_lem :
        (later : ℕ)
        → later / second ≤ (now + cfg.token_expire) / second
        → Generated
        → verify_access_token jwt (some cfg) access later
          ≡ ok (claims_until user_id email cfg.token_expire now)
    unfolding verify_access_token
    verify_access_token_lem later h g =
        let c = claims_until user_id email cfg.token_expire now in
        rw (laws.not_empty cfg.secret_key access c g.1) (parse_token_lem later h g)

module _ {R U : Type 0} (l : AuthLogic R U) (user_id : ℕ) (email : String) (now : ℕ) (s s' : R)
    (v : LoginResult) where
  -- What a successful issueLoginTokens has done.
  abbrev Issued : Type 0
  Issued =
      (generate_token l.jwt l.jwt_config user_id email now ≡ ok (v.access_token, v.refresh_token))
      × (v.user_id ≡ user_id)
      × (v.email ≡ email)
      × ((user_id == 0) ≡ false)
      × (l.tokens.exec
            (login_commands user_id email (l.token_hash v.access_token)
              (l.token_hash v.refresh_token) l.access_ttl l.refresh_ttl)
            s
          ≡ (s', false))

  issued_of_ok : issue_login_tokens l user_id email now s ≡ (s', ok v) → Issued
  unfolding issue_login_tokens save_tokens save_login_tokens check_tokens commit
  issued_of_ok e = ground (arith, e)

same_text_refl : (t : String) → same_text t t ≡ true
same_text_refl t = ground arith

module _ {R U : Type 0} (l : AuthLogic R U) (redis : IsRedis l.tokens) (user_id : ℕ)
    (email : String) (s s' : R) (access refresh : String) where
  -- The session that the login has written.
  session : TokenSession
  session = record {
    user_id = user_id;
    email = email;
    access_hash = l.token_hash access;
    refresh_hash = l.token_hash refresh;
  }

  get_access_session_lem :
      (fs : Fields)
      → l.tokens.exec
          (login_commands user_id email
            (l.token_hash access)
            (l.token_hash refresh)
            l.access_ttl
            l.refresh_ttl)
          s
        ≡ (s', false)
      → l.tokens.hget_all (access_token_key (l.token_hash access)) s' ≡ some fs
      → user_id < 2 ^ 64
      → (user_id == 0) ≡ false
      → 0 < l.access_ttl
      → 0 < l.refresh_ttl
      → get_access_session l.tokens l.token_hash access s' ≡ ok session
  unfolding get_access_session session
  get_access_session_lem fs e read small id a r =
      let key = access_token_key (l.token_hash access) in
      let old = redis.hash_at key s in
      let same : fs
          ≡ login_hash user_id email (l.token_hash access) (l.token_hash refresh) l.access_ttl
              l.refresh_ttl old a r =
        redis.hget_all-hash_at key s' fs read ∙ redis.exec-hash_at _ s s' key e in
      let parse : parse_token_session fs (l.token_hash access) (field "refresh_hash" fs)
          ≡ ok session =
        subst
          (λ x. parse_token_session x (l.token_hash access) (field "refresh_hash" x) ≡ ok session)
          (sym same)
          (login_hash-session user_id email (l.token_hash access) (l.token_hash refresh)
            l.access_ttl l.refresh_ttl old a r small id) in
      ground (arith, read, parse)

  accepts_session_lem : accepts_session l session user_id email refresh ≡ true
  unfolding accepts_session session
  accepts_session_lem = ground (arith, same_text_refl email, same_text_refl (l.token_hash refresh))

  verify_active_lem :
      (claims : JwtClaims)
      → get_access_session l.tokens l.token_hash access s' ≡ ok session
      → claims.user_id ≡ user_id
      → claims.email ≡ email
      → verify_active_access_token l access refresh claims s'
        ≡ ok (record {
          user_id = user_id;
          email = email;
          access_token = access;
          refresh_token = refresh;
        })
  unfolding verify_active_access_token
  verify_active_lem claims e id mail = ground (arith, e, id, mail, accepts_session_lem)

-- A token that parses and has its session.
verify_token_lem :
    {R U : Type 0} (l : AuthLogic R U) (access refresh : String) (now : ℕ) (s : R)
    (claims : JwtClaims) (v : LoginResult)
    → trim_space access ≡ access
    → trim_space refresh ≡ refresh
    → is_empty access ≡ false
    → verify_access_token l.jwt l.jwt_config access now ≡ ok claims
    → verify_active_access_token l access refresh claims s ≡ ok v
    → verify_token l access refresh now s ≡ (s, ok v)
unfolding verify_token verify_parsed
verify_token_lem l access refresh now s claims v a b c d e = ground (arith, a, b, c, d, e)

module _ {R U : Type 0} (l : AuthLogic R U) (jwt : IsJwtGo l.jwt) (redis : IsRedis l.tokens) where
  issued_verify :
      (user_id : ℕ) (email : String) (now later : ℕ) (s s' : R) (v : LoginResult) (fs : Fields)
      (cfg : JwtConfig)
      → l.jwt_config ≡ some cfg
      → Issued l user_id email now s s' v
      → later / second ≤ (now + cfg.token_expire) / second
      → user_id < 2 ^ 64
      → 0 < l.access_ttl
      → 0 < l.refresh_ttl
      → l.tokens.hget_all (access_token_key (l.token_hash v.access_token)) s' ≡ some fs
      → verify_token l v.access_token v.refresh_token later s' ≡ (s', ok v)
  unfolding claims_until
  issued_verify user_id email now later s s' v fs cfg c i h small a r read =
      let (made, id, mail, nonzero, done) = i in
      let signed = generated_of_ok l.jwt cfg user_id email v.access_token v.refresh_token now (
        subst (λ x. generate_token l.jwt x user_id email now ≡ ok (v.access_token, v.refresh_token))
          c made) in
      let full =
        jwt.not_empty cfg.secret_key v.access_token
          (claims_until user_id email cfg.token_expire now) signed.1 in
      let plain =
        jwt.no_blanks cfg.secret_key v.access_token
          (claims_until user_id email cfg.token_expire now) signed.1 in
      let plain_too =
        jwt.no_blanks cfg.secret_key v.refresh_token
          (claims_until user_id email cfg.refresh_expire now) signed.2 in
      let known =
        verify_access_token_lem l.jwt cfg user_id email v.access_token v.refresh_token now jwt later
          h signed in
      let stored =
        get_access_session_lem l redis user_id email s s' v.access_token v.refresh_token fs done
          read small nonzero a r in
      let active =
        verify_active_lem l redis user_id email s s' v.access_token v.refresh_token
          (claims_until user_id email cfg.token_expire now) stored refl refl in
      let parsed_too =
        subst
          (λ x.
            verify_access_token l.jwt x v.access_token later
            ≡ ok (claims_until user_id email cfg.token_expire now))
          (sym c) known in
      let same : ◌≡◌ {A = LoginResult}
          (record {
            user_id = user_id;
            email = email;
            access_token = v.access_token;
            refresh_token = v.refresh_token;
          })
          v =
        ground (arith, id, mail) in
      verify_token_lem l v.access_token v.refresh_token later s'
        (claims_until user_id email cfg.token_expire now) v plain plain_too full parsed_too
        (active ∙ ap ok same)

  -- The tokens of a login are accepted, with the same answer and no write, in the store that the
  -- login has left, until the second in which the access token expires. This supposes a
  -- configuration of jwt, a user id of 64 bits, times to live that are not 0 and a store that
  -- answers the read.
  pub verify_token-issue_login_tokens :
      (user_id : ℕ) (email : String) (now later : ℕ) (s s' : R) (v : LoginResult) (fs : Fields)
      (cfg : JwtConfig)
      → l.jwt_config ≡ some cfg
      → issue_login_tokens l user_id email now s ≡ (s', ok v)
      → later / second ≤ (now + cfg.token_expire) / second
      → user_id < 2 ^ 64
      → 0 < l.access_ttl
      → 0 < l.refresh_ttl
      → l.tokens.hget_all (access_token_key (l.token_hash v.access_token)) s' ≡ some fs
      → verify_token l v.access_token v.refresh_token later s' ≡ (s', ok v)
  verify_token-issue_login_tokens user_id email now later s s' v fs cfg c e =
      issued_verify user_id email now later s s' v fs cfg c
        (issued_of_ok l user_id email now s s' v e)
