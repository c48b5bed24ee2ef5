-- ===== src/Account/Fields.antt =====
-- logicserver/repo/token.go: what the login transaction leaves in the hash of the access token.
use demo_server.Prelude.{
  ℕ, ◌<◌, String, false, Option, some, [], ◌∷◌, ◌≡◌, refl, ap, ◌∙◌, arith, ◌==◌, ◌^◌,
}
use text.Mathlib.Text.{◌==◌ as str_eq}
use demo_server.Prelude.Text.{string_discrete, decimal, differ→ne}
use demo_server.Prelude.Numbers.{parse_uint, parse_uint-decimal}
use demo_server.Prelude.Assoc.{lookup, insert, lookup-insert}
use demo_server.Prelude.Actions.{ok}
use demo_server.Account.Redis.{Fields, hset, expire, set_fields, run_command, run_commands}
use demo_server.Account.Sessions.{
  field, access_token_key, refresh_token_key, user_token_key, access_values, refresh_values,
  user_values, login_commands, parse_token_session, session_of,
}

-- The hash has the value under the field.
abbrev pub Has : String → String → Fields → Type 0
Has f v fs = lookup string_discrete f fs ≡ some v

Has-nil : (f v : String) → ¬ (Has f v [])
unfolding lookup
Has-nil f v = λ h. ground (arith, h)

field_of : (f v : String) (fs : Fields) → Has f v fs → field f fs ≡ v
field_of f v fs h = ground (arith, h)

session_of_lem :
    (o : Option ℕ) (fs : Fields) (user_id : ℕ) (email access_hash found refresh_hash : String)
    → o ≡ some user_id
    → (user_id == 0) ≡ false
    → field "email" fs ≡ email
    → found ≡ refresh_hash
    → session_of o fs access_hash found
      ≡ ok (record {
        user_id = user_id;
        email = email;
        access_hash = access_hash;
        refresh_hash = refresh_hash;
      })
session_of_lem o fs user_id email access_hash found refresh_hash a b c d = rw (a, b, c, d) refl

Has-insert_other :
    (f g v w : String) (fs : Fields)
    → str_eq g f ≡ false
    → Has f v fs
    → Has f v (insert string_discrete g w fs)
Has-insert_other f g v w fs e h =
    ground (arith, lookup-insert string_discrete g f w fs, differ→ne g f e, h)

Has-insert_same : (f v : String) (fs : Fields) → Has f v (insert string_discrete f v fs)
Has-insert_same f v fs = ground (arith, lookup-insert string_discrete f f v fs)

Has-hset :
    (key k f v : String) (new old : Fields)
    → Has f v old
    → Has f v (set_fields new old)
    → Has f v (run_command key (hset k new) old)
Has-hset key k f v new old h n = ground (arith, h, n)

Has-expire :
    (key k f v : String) (ttl : ℕ) (old : Fields)
    → 0 < ttl
    → Has f v old
    → Has f v (run_command key (expire k ttl) old)
Has-expire key k f v ttl old p h = ground (arith, p, h)

module _ (user_id : ℕ) (email access_hash refresh_hash : String) (access_ttl refresh_ttl : ℕ)
    (old : Fields) (access_lasts : 0 < access_ttl) (refresh_lasts : 0 < refresh_ttl) where
  abbrev key : String
  key = access_token_key access_hash

  -- The hash after the six commands.
  abbrev pub login_hash : Fields
  login_hash =
      run_commands (access_token_key access_hash)
        (login_commands user_id email access_hash refresh_hash access_ttl refresh_ttl) old

  -- A field of the first command stays, where the two others do not change it.
  kept :
      (f v : String) (fs : Fields)
      → Has f v fs
      → ((gs : Fields) → Has f v gs → Has f v (set_fields (refresh_values user_id email) gs))
      → ((gs : Fields)
          → Has f v gs
          → Has f v (set_fields (user_values email access_hash refresh_hash) gs))
      → Has f v (
          run_commands
            (access_token_key access_hash)
            (expire (access_token_key access_hash) access_ttl
              ∷ hset (refresh_token_key refresh_hash) (refresh_values user_id email)
              ∷ expire (refresh_token_key refresh_hash) refresh_ttl
              ∷ hset (user_token_key user_id) (user_values email access_hash refresh_hash)
              ∷ expire (user_token_key user_id) refresh_ttl
              ∷ [])
            fs)
  kept f v fs h r u =
      let a = Has-expire key key f v access_ttl fs access_lasts h in
      let b =
        Has-hset key (refresh_token_key refresh_hash) f v (refresh_values user_id email) _ a
          (r _ a) in
      let c = Has-expire key (refresh_token_key refresh_hash) f v refresh_ttl _ refresh_lasts b in
      let d =
        Has-hset key (user_token_key user_id) f v (user_values email access_hash refresh_hash) _ c
          (u _ c) in
      Has-expire key (user_token_key user_id) f v refresh_ttl _ refresh_lasts d

  -- After the first command.
  login_hash_Has :
      (f v : String)
      → Has f v (set_fields (access_values user_id email refresh_hash) old)
      → ((gs : Fields) → Has f v gs → Has f v (set_fields (refresh_values user_id email) gs))
      → ((gs : Fields)
          → Has f v gs
          → Has f v (set_fields (user_values email access_hash refresh_hash) gs))
      → Has f v login_hash
  login_hash_Has f v h r u =
      kept f v (run_command key (hset key (access_values user_id email refresh_hash)) old)
        (ground (arith, h)) r u

  pub login_hash-user_id : Has "user_id" (decimal user_id) login_hash
  login_hash-user_id =
      login_hash_Has "user_id" (decimal user_id)
        (Has-insert_other "user_id" "refresh_hash" _ _ _ refl
          (Has-insert_other "user_id" "email" _ _ _ refl (Has-insert_same "user_id" _ old)))
        (λ gs h. Has-insert_other "user_id" "email" _ _ _ refl (Has-insert_same "user_id" _ gs))
        (λ gs h. Has-insert_other "user_id" "email" _ _ _ refl (
          Has-insert_other "user_id" "refresh_hash" _ _ _ refl
            (Has-insert_other "user_id" "access_hash" _ _ _ refl h)))

  pub login_hash-email : Has "email" email login_hash
  login_hash-email =
      login_hash_Has "email" email
        (Has-insert_other "email" "refresh_hash" _ _ _ refl (Has-insert_same "email" _ _))
        (λ gs h. Has-insert_same "email" _ _) (λ gs h. Has-insert_same "email" _ _)

  pub login_hash-refresh_hash : Has "refresh_hash" refresh_hash login_hash
  login_hash-refresh_hash =
      login_hash_Has "refresh_hash" refresh_hash (Has-insert_same "refresh_hash" _ _)
        (λ gs h.
          Has-insert_other "refresh_hash" "email" _ _ _ refl
            (Has-insert_other "refresh_hash" "user_id" _ _ _ refl h))
        (λ gs h.
          Has-insert_other "refresh_hash" "email" _ _ _ refl (Has-insert_same "refresh_hash" _ _))

  -- The session that is read back.
  pub login_hash-session :
      user_id < 2 ^ 64
      → (user_id == 0) ≡ false
      → parse_token_session login_hash access_hash (field "refresh_hash" login_hash)
        ≡ ok (record {
          user_id = user_id;
          email = email;
          access_hash = access_hash;
          refresh_hash = refresh_hash;
        })
  unfolding parse_token_session
  login_hash-session small id =
      read login_hash login_hash-user_id login_hash-email login_hash-refresh_hash
    where
      read :
          (fs : Fields)
          → Has "user_id" (decimal user_id) fs
          → Has "email" email fs
          → Has "refresh_hash" refresh_hash fs
          → parse_token_session fs access_hash (field "refresh_hash" fs)
            ≡ ok (record {
              user_id = user_id;
              email = email;
              access_hash = access_hash;
              refresh_hash = refresh_hash;
            })
      read [] u e r = absurd (Has-nil "user_id" (decimal user_id) u)
      read (x ∷ fs) u e r =
          session_of_lem (parse_uint (field "user_id" (x ∷ fs))) (x ∷ fs) user_id email access_hash
            (field "refresh_hash" (x ∷ fs)) refresh_hash
            (ap parse_uint (field_of "user_id" (decimal user_id) (x ∷ fs) u)
              ∙ parse_uint-decimal user_id small)
            id (field_of "email" email (x ∷ fs) e) (field_of "refresh_hash" refresh_hash (x ∷ fs) r)
