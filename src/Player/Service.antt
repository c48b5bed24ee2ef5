-- ===== src/Player/Service.antt =====
-- logicserver/service/service.go: SettleUpGameRewardAndKd, and the request that
-- roomserver/logic/room_manager.go sends to it.
use demo_server.Prelude.{ℕ, not, ◌||◌, List, [], ◌∷◌, map, length, ◌==◌, if◌then◌else◌}
use demo_server.Prelude.Int.{ℤ, pos}
use demo_server.Prelude.Actions.{Result, ok, err, Action}
use demo_server.Manager.{Settlement}
use demo_server.Player.Users.{UserStore}
use demo_server.Player.Info.{Panic, Failures, settle_up_room}

pub record SettleRequest : Type 0 where
  pub player_ids : List ℕ
  pub exp : List ℤ
  pub coin : List ℤ
  pub kill_count : List ℤ

-- The status and content of the response.
pub data SettleResponse : Type 0 where
  settled array_length_mismatch : SettleResponse
  settle_failed : Failures → SettleResponse

abbrev pub settle_response : Result Panic Failures → Result Panic SettleResponse
settle_response (ok []) = ok settled
settle_response (ok (f ∷ fs)) = ok (settle_failed (f ∷ fs))
settle_response (err p) = err p

module _ {S : Type 0} (users : UserStore S) where
  unfoldable pub settle_up_game : SettleRequest → Action S Panic SettleResponse
  settle_up_game req s =
      let count = length req.player_ids in
      if not (length req.exp == count)
        || not (length req.coin == count)
        || not (length req.kill_count == count)
      then (s, ok array_length_mismatch)
      else (let (s', r) = settle_up_room users req.player_ids req.exp req.coin req.kill_count s in
          (s', settle_response r))

-- The request as it travels: all of its numbers are int64.
abbrev pub request_of : Settlement → SettleRequest
request_of s = record {
  player_ids = s.player_ids;
  exp = map pos s.exp;
  coin = map pos s.coin;
  kill_count = map pos s.kill_count;
}
