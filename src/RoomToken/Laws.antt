-- ===== src/RoomToken/Laws.antt =====
-- pkg/roomtoken/token.go: `Generate` followed by `Parse`.
use demo_server.Prelude.{
  ℕ, ◌/◌, ◌<◌, ◌≤◌, ◌≡◌, ◌≢◌, refl, String, Option, some, true, false, ltb, if◌then◌else◌, arith,
}
use demo_server.Prelude.Int.{ℤ}
use demo_server.Prelude.Text.{is_empty}
use demo_server.RoomToken.{
  Claims, Method, hmac, token, validation_error, Jwt, ok, err, room_token_expired, parse_failed,
  second, stamp, generate, key_of, parse,
}

-- What jwt-go documents. A signed token is not empty. Parsed with the key that it was signed with
-- it gives its claims, or the bit for "expired" when its time has passed; with another key it is
-- refused, with that same bit. An expiry of 0 means "none".
pub record IsJwt (jwt : Jwt) : Type 0 where
  pub not_empty :
      (secret t : String) (c : Claims) → jwt.signed_string secret c ≡ some t → is_empty t ≡ false
  pub accepts :
      (secret t : String) (c : Claims) (f : Method → Option String) (now : ℕ)
      → jwt.signed_string secret c ≡ some t
      → 0 < c.expires_at
      → f hmac ≡ some secret
      → jwt.parse_with_claims f t now
        ≡ (if ltb c.expires_at now then validation_error true else token c true)
  pub rejects :
      (secret key t : String) (c : Claims) (f : Method → Option String) (now : ℕ)
      → jwt.signed_string secret c ≡ some t
      → 0 < c.expires_at
      → f hmac ≡ some key
      → key ≢ secret
      → jwt.parse_with_claims f t now ≡ validation_error (ltb c.expires_at now)

module _ (jwt : Jwt) (laws : IsJwt jwt) (secret t : String) (c : Claims) (expire : ℤ)
    (now : ℕ) where
  signed_of_ok :
      generate jwt secret c expire now ≡ ok t
      → (is_empty secret ≡ false) × (jwt.signed_string secret (stamp c expire now) ≡ some t)
  unfolding generate
  signed_of_ok h = ground arith

  stamp-pos : second ≤ now → 0 < (stamp c expire now).expires_at
  unfolding stamp
  stamp-pos h = omega arith

  -- A token that was issued under a secret is accepted under it until the second of its expiry,
  -- with the claims that were signed, and is answered with "expired" from the next second on.
  pub parse-generate :
      (later : ℕ)
      → second ≤ now
      → generate jwt secret c expire now ≡ ok t
      → parse jwt secret t later ≡ (
          if ltb (stamp c expire now).expires_at (later / second)
          then err room_token_expired
          else ok (stamp c expire now))
  unfolding parse
  parse-generate later clock h =
      let (keyed, signed) = signed_of_ok h in
      rw
        (
          laws.not_empty secret t (stamp c expire now) signed,
          keyed,
          laws.accepts secret t (stamp c expire now) (key_of secret) (later / second) signed
              (stamp-pos clock) refl,
        )
        (ground arith)

  -- Under any other secret it is refused.
  pub parse_other_secret :
      (key : String) (later : ℕ)
      → second ≤ now
      → generate jwt secret c expire now ≡ ok t
      → key ≢ secret
      → is_empty key ≡ false
      → parse jwt key t later ≡ (
          if ltb (stamp c expire now).expires_at (later / second)
          then err room_token_expired
          else err parse_failed)
  unfolding parse
  parse_other_secret key later clock h differ keyed =
      let (_, signed) = signed_of_ok h in
      rw
        (
          laws.not_empty secret t (stamp c expire now) signed,
          keyed,
          laws.rejects secret key t (stamp c expire now) (key_of key) (later / second) signed
              (stamp-pos clock) refl differ,
        )
        (ground arith)
