-- ===== src/Account/Active.antt =====
-- logicserver/logic/auth.go: what a verified token rests on.
use demo_server.Prelude.{
  ℕ, String, Bool, true, false, not, ◌||◌, ◌≡◌, ◌⊎◌, inl, inr, refl, arith, if◌then◌else◌,
}
use demo_server.Prelude.Text.{is_empty, trim_space}
use demo_server.Prelude.Actions.{Result, ok, err}
use demo_server.Account.Signing.{JwtClaims, ParseError, verify_access_token}
use demo_server.Account.Sessions.{TokenError, TokenSession, get_access_session, get_refresh_session}
use demo_server.Account.Login.{
  AuthError, unauthorized, token_error, LoginResult, AuthLogic, verify_token, verify_parsed,
  verify_active_access_token, accepts_session, refresh_session, renew_session, or_unauthorized,
  matches_session, save_tokens,
}

module _ {R U : Type 0} (l : AuthLogic R U) where
  -- The token is one of this server, and the store has a session of its user for it.
  abbrev pub HasSession : R → String → ℕ → LoginResult → Type 0
  HasSession s access now v =
      (claims : JwtClaims) × (session : TokenSession) × (verify_access_token l.jwt l.jwt_config
          access now
        ≡ ok claims)
      × (get_access_session l.tokens l.token_hash access s ≡ ok session)
      × (v.user_id ≡ claims.user_id)
      × (session.user_id ≡ claims.user_id)

  -- The token has expired, and the store has a session for the refresh token, of the user who gets
  -- the new access token.
  abbrev pub HasRefresh : R → String → String → ℕ → LoginResult → Type 0
  HasRefresh s access refresh now v =
      (e : ParseError) × (session : TokenSession) × (verify_access_token l.jwt l.jwt_config access
          now
        ≡ err e)
      × (e.expired ≡ true)
      × (get_refresh_session l.tokens l.token_hash refresh s ≡ ok session)
      × (v.user_id ≡ session.user_id)
      × (v.email ≡ session.email)

  active_HasSession :
      (s : R) (access refresh : String) (claims : JwtClaims) (v : LoginResult)
      → verify_active_access_token l access refresh claims s ≡ ok v
      → (session : TokenSession) × (get_access_session l.tokens l.token_hash access s ≡ ok session)
        × (v.user_id ≡ claims.user_id)
        × (session.user_id ≡ claims.user_id)
  unfolding verify_active_access_token accepts_session
  active_HasSession s access refresh claims v e = ground (arith, e)

  active_error :
      (s : R) (access refresh : String) (claims : JwtClaims) (e : AuthError)
      → verify_active_access_token l access refresh claims s ≡ err e
      → e ≡ unauthorized
  unfolding verify_active_access_token accepts_session
  active_error s access refresh claims e h = ground (arith, h)

  -- What an answer of VerifyToken tells.
  abbrev pub Verified : R → R → String → String → ℕ → Result AuthError LoginResult → Type 0
  Verified s s' access refresh now (ok v) =
      ((s' ≡ s) × HasSession s access now v) ⊎ HasRefresh s access refresh now v
  Verified s s' access refresh now (err e) =
      ((s' ≡ s) × (e ≡ unauthorized)) ⊎ ((t : TokenError) × (e ≡ token_error t))

  renew_user :
      (s : R) (refresh : String) (session : TokenSession) (now : ℕ)
      (r : R × Result AuthError LoginResult)
      → renew_session l refresh session now s ≡ r
      → (v : LoginResult) → r.1 ≡ ok v
      → (v.user_id ≡ session.user_id) × (v.email ≡ session.email)
  unfolding renew_session matches_session save_tokens
  renew_user s refresh session now r e v u = ground (arith, e, u)

  renew_error :
      (s : R) (refresh : String) (session : TokenSession) (now : ℕ)
      (r : R × Result AuthError LoginResult)
      → renew_session l refresh session now s ≡ r
      → (e : AuthError) → r.1 ≡ err e
      → ((r.0 ≡ s) × (e ≡ unauthorized)) ⊎ ((t : TokenError) × (e ≡ token_error t))
  unfolding renew_session matches_session save_tokens
  renew_error s refresh session now r h e u = ground (arith, h, u)

  renewed :
      (s : R) (access refresh : String) (session : TokenSession) (now : ℕ) (e : ParseError)
      → verify_access_token l.jwt l.jwt_config access now ≡ err e
      → e.expired ≡ true
      → get_refresh_session l.tokens l.token_hash refresh s ≡ ok session
      → (r : R × Result AuthError LoginResult) → renew_session l refresh session now s ≡ r
      → Verified s (r.0) access refresh now (r.1)
  renewed s access refresh session now e p x q (t, ok v) h =
      let (id, mail) = renew_user s refresh session now (t, ok v) h v refl in
      inr (e, session, p, x, q, id, mail)
  renewed s access refresh session now e p x q (t, err d) h =
      renew_error s refresh session now (t, err d) h d refl

  refresh_Verified :
      (s : R) (access refresh : String) (now : ℕ) (e : ParseError)
      → verify_access_token l.jwt l.jwt_config access now ≡ err e
      → e.expired ≡ true
      → Verified s
          ((refresh_session l refresh now s).0)
          access
          refresh
          now
          ((refresh_session l refresh now s).1)
  unfolding refresh_session
  refresh_Verified s access refresh now e p x =
      go (get_refresh_session l.tokens l.token_hash refresh s) refl
    where
      go :
          (g : Result TokenError TokenSession)
          → get_refresh_session l.tokens l.token_hash refresh s ≡ g
          → let r : R × Result AuthError LoginResult =
              (elim (or_unauthorized g) as (λ x. R × Result AuthError LoginResult) [
                | ok session ↦ renew_session l refresh session now s
                | err d ↦ (s, err d)
              ]) in
            Verified s (r.0) access refresh now (r.1)
      go (err d) q = inl (refl, refl)
      go (ok session) q =
          renewed s access refresh session now e p x q (renew_session l refresh session now s) refl

  parsed_Verified :
      (s : R) (access refresh : String) (now : ℕ) (p : Result ParseError JwtClaims)
      → verify_access_token l.jwt l.jwt_config access now ≡ p
      → Verified s
          ((verify_parsed l access refresh p now s).0)
          access
          refresh
          now
          ((verify_parsed l access refresh p now s).1)
  unfolding verify_parsed
  parsed_Verified s access refresh now (ok claims) q =
      go (verify_active_access_token l access refresh claims s) refl
    where
      go :
          (g : Result AuthError LoginResult)
          → verify_active_access_token l access refresh claims s ≡ g
          → Verified s s access refresh now g
      go (ok v) h =
          let (session, got, id, same) = active_HasSession s access refresh claims v h in
          inl (refl, (claims, session, q, got, id, same))
      go (err d) h = inl (refl, active_error s access refresh claims d h)
  parsed_Verified s access refresh now (err e) q = go (not e.expired || is_empty refresh) refl
    where
      go :
          (b : Bool)
          → (not e.expired || is_empty refresh) ≡ b
          → let r : R × Result AuthError LoginResult =
              if b then (s, err unauthorized) else refresh_session l refresh now s in
            Verified s (r.0) access refresh now (r.1)
      go true h = inl (refl, refl)
      go false h = refresh_Verified s access refresh now e q (ground (arith, h))

  -- VerifyToken, on every branch. It accepts a token only if this server's parser takes it and the
  -- store has a session for it of the same user, and then writes nothing; or, when the token has
  -- expired, if the store has a session for the refresh token, whose user and email are answered.
  -- It answers an error other than ErrUnauthorized only from the token store, and where it answers
  -- ErrUnauthorized it has written nothing.
  pub verify_token-Verified :
      (s : R) (access refresh : String) (now : ℕ)
      → Verified s
          ((verify_token l access refresh now s).0)
          (trim_space access)
          (trim_space refresh)
          now
          ((verify_token l access refresh now s).1)
  unfolding verify_token
  verify_token-Verified s access refresh now = go (is_empty (trim_space access))
    where
      go :
          (b : Bool)
          → let r : R × Result AuthError LoginResult =
              (if b
                  then (λ (x : R). (x, err unauthorized))
                  else verify_parsed l
                      (trim_space access)
                      (trim_space refresh)
                      (verify_access_token l.jwt l.jwt_config (trim_space access) now)
                      now)
                s in
            Verified s (r.0) (trim_space access) (trim_space refresh) now (r.1)
      go true = inl (refl, refl)
      go false =
          parsed_Verified s (trim_space access) (trim_space refresh) now
            (verify_access_token l.jwt l.jwt_config (trim_space access) now) refl
