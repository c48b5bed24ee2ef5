-- ===== src/Player/Tests.antt =====
-- A player's purchases and rewards in memory.
use demo_server.Prelude.{String, List, [], ◌∷◌, ◌≡◌, refl, arith}
use demo_server.Prelude.Int.{ℤ, pos, ◌-ℤ◌}
use demo_server.Prelude.Actions.{ok}
use demo_server.Manager.Settle.{kill_counts, settlement}
use demo_server.Room.Samples.{small_room}
use demo_server.Player.State.{Gun}
use demo_server.Player.Users.{
  user_not_found, add_player_exp_level_coin, find_by_user_id, reward_found, write_rewards,
  add_rewards, new_user, buy_gun_to_player_ware, can_buy, take_gun, buy_failure, purchase_result,
}
use demo_server.Player.Wallet.{Call, create, reward, buy, run_calls, run_calls-IsSound, IsSound}
use demo_server.Player.Purchase.{buy_gun_to_player_ware-IsPurchase}
use demo_server.Player.Outcome.{IsPurchase}
use demo_server.Player.Info.{settle_up_room}
use demo_server.Player.Settle.{reward_all, settle_up_room-reward_all}
use demo_server.Player.Service.{settle_up_game, request_of}
use demo_server.Player.Delivered.{IsTaken, settle_up_game-settlement}
use demo_server.Player.Memory.{Memory, memory, memory-IsUserStore}

abbrev rifle : Gun
rifle = record { id = pos 7; price = pos 1500; name = "rifle" }

abbrev same_letters : String → String
same_letters = λ s. s

-- A registration, a purchase and a second one for which the coins are short.
abbrev afternoon : List Call
afternoon = create "ann" "h" ∷ buy 1 rifle ∷ buy 1 rifle ∷ reward 1 (pos 500) (pos 300) (pos 2) ∷ []

run_calls-IsSound_example :
    IsSound memory-IsUserStore same_letters (run_calls memory same_letters afternoon ([], 0))
unfolding memory-IsUserStore
run_calls-IsSound_example =
    run_calls-IsSound memory-IsUserStore same_letters afternoon ([], 0)
      (tt, (tt, (tt, (omega arith, tt)))) (tt, tt)

abbrev one_user : Memory
unfolding new_user
one_user = (new_user 1 "ann" "h" ∷ [], 1)

-- The player who got the rifle.
abbrev richer : Memory
unfolding new_user take_gun
richer = (take_gun rifle (new_user 1 "ann" "h") ∷ [], 1)

bought : buy_gun_to_player_ware memory 1 rifle one_user ≡ (richer, ok tt)
unfolding buy_gun_to_player_ware can_buy take_gun purchase_result buy_failure new_user ◌-ℤ◌
bought = refl

buy_gun_to_player_ware-IsPurchase_example : IsPurchase 1 rifle (one_user.0) (richer.0) (ok tt)
unfolding memory-IsUserStore new_user
buy_gun_to_player_ware-IsPurchase_example =
    buy_gun_to_player_ware-IsPurchase memory memory-IsUserStore.store 1 rifle one_user richer
      (ok tt) (tt, tt) bought (λ e. ground (arith, e))

abbrev exps : List ℤ
exps = pos 500 ∷ []

abbrev coins : List ℤ
coins = pos 300 ∷ []

abbrev kills : List ℤ
kills = pos 2 ∷ []

-- One user gets the reward, and a second one is not there.
settled_two :
    settle_up_room memory (1 ∷ 2 ∷ []) (pos 500 ∷ exps) (pos 300 ∷ coins) (pos 2 ∷ kills) one_user
    ≡ (
      (settle_up_room memory
          (1 ∷ 2 ∷ [])
          (pos 500 ∷ exps)
          (pos 300 ∷ coins)
          (pos 2 ∷ kills)
          one_user).0,
      ok ((2, user_not_found) ∷ []),
    )
unfolding settle_up_room add_player_exp_level_coin find_by_user_id reward_found write_rewards
    add_rewards new_user
settled_two = refl

settle_up_room-reward_all_example :
    ((settle_up_room memory
        (1 ∷ 2 ∷ [])
        (pos 500 ∷ exps)
        (pos 300 ∷ coins)
        (pos 2 ∷ kills)
        one_user).0.0
      ≡ (reward_all (1 ∷ 2 ∷ []) (pos 500 ∷ exps) (pos 300 ∷ coins) (pos 2 ∷ kills) (one_user.0)).0)
    × (((2, user_not_found) ∷ [])
        ≡ (reward_all
            (1 ∷ 2 ∷ [])
            (pos 500 ∷ exps)
            (pos 300 ∷ coins)
            (pos 2 ∷ kills)
            (one_user.0)).1)
unfolding memory-IsUserStore
settle_up_room-reward_all_example =
    settle_up_room-reward_all memory memory-IsUserStore.store (1 ∷ 2 ∷ []) (pos 500 ∷ exps)
      (pos 300 ∷ coins) (pos 2 ∷ kills) one_user
      ((settle_up_room memory (1 ∷ 2 ∷ []) (pos 500 ∷ exps) (pos 300 ∷ coins) (pos 2 ∷ kills)
        one_user).0)
      ((2, user_not_found) ∷ []) settled_two ((λ e. ground (arith, e)), tt)

settle_up_game-settlement_example : IsTaken (
    (settle_up_game memory
      (request_of (settlement (1 ∷ 2 ∷ []) (kill_counts small_room (1 ∷ 2 ∷ []))))
      one_user).1)
settle_up_game-settlement_example =
    settle_up_game-settlement memory small_room (1 ∷ 2 ∷ []) one_user
