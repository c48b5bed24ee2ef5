-- ===== src/Gateway/Tests.antt =====
-- A purchase and a login through the doors of the logicserver.
use demo_server.Prelude.{ℕ, Option, some, List, [], ◌∷◌, ◌≡◌, refl}
use demo_server.Prelude.Int.{pos}
use demo_server.Prelude.Text.{string_discrete}
use demo_server.RoomToken.Samples.{one_token as one_room_token}
use demo_server.Matching.Samples.{start, at_five}
use demo_server.Account.Memory.{Hashes}
use demo_server.Account.Samples.{auth, after_login, one_token, config}
use demo_server.Player.Mongo.{Collection, duplicate_key}
use demo_server.Player.State.{Gun}
use demo_server.Player.Users.{new_user}
use demo_server.Player.Mall.{MallDocument}
use demo_server.Player.Memory.{Memory, memory, memory-IsUserStore}
use demo_server.Match.Lobby.{answered, Backend}
use demo_server.Gateway.{method_not_allowed, handle, unmarshal}
use demo_server.Gateway.Auth.{
  LoginReq, TokenReq, MatchRoomReq, http_login, http_register, http_verify_token, http_match_room,
  serve_login, serve_register, serve_verify_token, serve_match_room,
}
use demo_server.Gateway.Shop.{GunReq, http_buy_gun}
use demo_server.Gateway.Same.{SameAnswer, doors-SameAnswer}
use demo_server.Gateway.Sale.{IsSale, http_buy_gun-IsSale}

abbrev rifle_seven : Gun
rifle_seven = record { id = pos 7; price = pos 1500; name = "rifle" }

-- A shop of one gun.
abbrev shop : Collection Unit MallDocument
shop = record {
  find_one = λ p m. some (some (rifle_seven ∷ []));
  update_one = λ p f m. (m, some 1);
  insert_one = λ d m. (m, duplicate_key);
}

abbrev asks : GunReq
asks = record { access_token = "t"; gun_id = pos 7 }

abbrev reads : List ℕ → Option GunReq
reads body = some asks

unfoldable one_customer : Memory
unfolding new_user
one_customer = (new_user 7 "ann" "h" ∷ [], 7)

http_buy_gun-IsSale_example :
    IsSale shop memory one_token
      (some config)
      memory-IsUserStore.store
      tt
      6_000_000_000
      (some asks)
      (one_customer.0)
      ((http_buy_gun shop memory one_token
        (some config)
        reads
        tt
        6_000_000_000
        (1 ∷ [])
        one_customer).0.0)
      ((http_buy_gun shop memory one_token
        (some config)
        reads
        tt
        6_000_000_000
        (1 ∷ [])
        one_customer).1)
unfolding memory-IsUserStore one_customer new_user unmarshal
http_buy_gun-IsSale_example =
    http_buy_gun-IsSale shop memory one_token (some config) memory-IsUserStore.store tt
      6_000_000_000 reads (1 ∷ []) one_customer (tt, tt)

abbrev credentials : LoginReq
credentials = record { email = "ann"; password = "h" }

abbrev tokens_sent : TokenReq
tokens_sent = record { access_token = "t"; refresh_token = "t" }

abbrev seat_asked : MatchRoomReq
seat_asked = record { access_token = "t"; refresh_token = "t"; mode = "" }

abbrev lobby : Backend Hashes
lobby = record { sessions = after_login; matcher = start }

doors-SameAnswer_example :
    SameAnswer
      (http_login auth (λ b. some credentials) 6_000_000_000 (1 ∷ []) (after_login, one_customer))
      (serve_login auth credentials 6_000_000_000 (after_login, one_customer))
    × SameAnswer
        (http_register auth
          (λ b. some credentials)
          6_000_000_000
          (1 ∷ [])
          (after_login, one_customer))
        (serve_register auth credentials 6_000_000_000 (after_login, one_customer))
    × SameAnswer
        (http_verify_token auth (λ b. some tokens_sent) 6_000_000_000 (2 ∷ []) after_login)
        (serve_verify_token auth tokens_sent 6_000_000_000 after_login)
    × (http_match_room auth one_room_token at_five answered
          (λ b. some seat_asked)
          6_000_000_000
          (3 ∷ [])
          lobby
        ≡ serve_match_room auth one_room_token at_five answered seat_asked 6_000_000_000 lobby)
unfolding unmarshal
doors-SameAnswer_example =
    doors-SameAnswer auth 6_000_000_000 one_room_token at_five answered (λ b. some credentials)
      (λ b. some tokens_sent) (λ b. some seat_asked) (1 ∷ []) (2 ∷ []) (3 ∷ []) credentials
      tokens_sent seat_asked (after_login, one_customer) lobby refl refl refl

-- A GET is answered by the transport, and a refused one by no handler.
only_post :
    (handle {S = ℕ} (λ body s. (s, body)) (record { method = "GET"; body = some [] }) 3).1
    ≡ method_not_allowed
unfolding handle string_discrete
only_post = refl
