-- ===== src/RoomToken/Tests.antt =====
-- A library that signs one token only, and a token's life under it.
use demo_server.Prelude.{◌≡◌, arith}
use demo_server.Prelude.Int.{pos}
use demo_server.RoomToken.{ok, stamp, generate, parse}
use demo_server.RoomToken.Samples.{asked, issued, one_token, one_token-IsJwt, sign_one}
use demo_server.RoomToken.Laws.{parse-generate}

issue : generate one_token "k" asked (pos 60_000_000_000) 5_000_000_000 ≡ ok "t"
unfolding generate sign_one
issue = ground arith

parse-generate_example : parse one_token "k" "t" 65_999_999_999 ≡ ok issued
unfolding stamp
parse-generate_example =
    parse-generate one_token one_token-IsJwt "k" "t" asked (pos 60_000_000_000) 5_000_000_000
      65_999_999_999 (omega arith) issue
