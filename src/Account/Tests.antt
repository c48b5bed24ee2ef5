-- ===== src/Account/Tests.antt =====
-- A login and the check of its token, with a library that signs one token only.
use demo_server.Prelude.{◌≡◌, refl, [], arith}
use demo_server.Prelude.Text.{trim_space}
use demo_server.Prelude.Actions.{ok}
use demo_server.Account.Memory.{memory-IsRedis, hash_of}
use demo_server.Account.Sessions.{access_token_key}
use demo_server.Account.Login.{verify_token}
use demo_server.Account.Active.{Verified, verify_token-Verified}
use demo_server.Account.Issued.{verify_token-issue_login_tokens}
use demo_server.Account.Samples.{one_token-IsJwtGo, config, auth, logged_in, after_login, issue}

verify_token-issue_login_tokens_example :
    verify_token auth "t" "t" 65_999_999_999 after_login ≡ (after_login, ok logged_in)
verify_token-issue_login_tokens_example =
    verify_token-issue_login_tokens auth one_token-IsJwtGo memory-IsRedis 7 "ann" 5_000_000_000
      65_999_999_999 [] after_login logged_in (hash_of (access_token_key "t") after_login) config
      refl issue (omega arith) (omega arith) (omega arith) (omega arith) refl

verify_token-Verified_example :
    Verified auth after_login
      ((verify_token auth " t " "" 65_999_999_999 after_login).0)
      "t"
      ""
      65_999_999_999
      ((verify_token auth " t " "" 65_999_999_999 after_login).1)
unfolding trim_space
verify_token-Verified_example = verify_token-Verified auth after_login " t " "" 65_999_999_999
