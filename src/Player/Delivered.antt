-- ===== src/Player/Delivered.antt =====
-- roomserver/logic/room_manager.go and logicserver/service/service.go: the settlement of a finished
-- match on its way to the users.
use demo_server.Prelude.{
  ℕ, false, not, ◌||◌, List, [], ◌∷◌, length, length-map, ◌==◌, ◌≡◌, ◌≢◌, refl, ◌∙◌, arith,
}
use demo_server.Prelude.Int.{ℤ, pos}
use demo_server.Prelude.Actions.{Result, ok, err}
use demo_server.Room.State.{Room}
use demo_server.Manager.{Settlement}
use demo_server.Manager.Settle.{kill_counts, settlement}
use demo_server.Manager.Rewards.{settlement-lengths}
use demo_server.Player.Users.{UserStore, UserError, add_player_exp_level_coin}
use demo_server.Player.Info.{Panic, Failures, settle_up_room, note_result}
use demo_server.Player.Service.{
  SettleRequest, SettleResponse, array_length_mismatch, settle_response, settle_up_game, request_of,
}

-- Every player is looked at, and those who failed are listed.
abbrev pub IsTaken : Result Panic SettleResponse → Type 0
IsTaken r = (r ≢ ok array_length_mismatch) × ((p : Panic) → r ≢ err p)

note_result-no_panic :
    (p : ℕ) (r : Result UserError Unit) (rest : Result Panic Failures)
    → ((e : Panic) → rest ≢ err e)
    → (e : Panic) → note_result p r rest ≢ err e
note_result-no_panic p r (ok fs) h e = λ q. absurd (ground (arith, q))
note_result-no_panic p r (err x) h e = λ q. absurd (h x refl)

module _ {S : Type 0} (users : UserStore S) where
  -- The loop reads no slice out of its range when they are as long as the list of players.
  settle_up_room-no_panic :
      (ids : List ℕ) (exps coins kills : List ℤ) (s : S)
      → length exps ≡ length ids
      → length coins ≡ length ids
      → length kills ≡ length ids
      → (p : Panic) → (settle_up_room users ids exps coins kills s).1 ≢ err p
  unfolding settle_up_room
  settle_up_room-no_panic [] exps coins kills s a b c p = λ q. absurd (ground (arith, q))
  settle_up_room-no_panic (i ∷ ids) [] coins kills s a b c p = absurd (omega (arith, a))
  settle_up_room-no_panic (i ∷ ids) (x ∷ xs) [] kills s a b c p = absurd (omega (arith, b))
  settle_up_room-no_panic (i ∷ ids) (x ∷ xs) (y ∷ ys) [] s a b c p = absurd (omega (arith, c))
  settle_up_room-no_panic (i ∷ ids) (x ∷ xs) (y ∷ ys) (k ∷ ks) s a b c p =
      note_result-no_panic i _ _
        (settle_up_room-no_panic ids xs ys ks ((add_player_exp_level_coin users i x y k s).0)
          (omega (arith, a)) (omega (arith, b)) (omega (arith, c)))
        p

  settle_response-IsTaken :
      (r : Result Panic Failures) → ((p : Panic) → r ≢ err p) → IsTaken (settle_response r)
  settle_response-IsTaken (ok []) h =
      ((λ q. absurd (ground (arith, q))), λ p q. absurd (ground (arith, q)))
  settle_response-IsTaken (ok (f ∷ fs)) h =
      ((λ q. absurd (ground (arith, q))), λ p q. absurd (ground (arith, q)))
  settle_response-IsTaken (err x) h = absurd (h x refl)

  settle_up_game-IsTaken :
      (req : SettleRequest) (s : S)
      → length req.exp ≡ length req.player_ids
      → length req.coin ≡ length req.player_ids
      → length req.kill_count ≡ length req.player_ids
      → IsTaken ((settle_up_game users req s).1)
  unfolding settle_up_game
  settle_up_game-IsTaken req s a b c =
      let fits : (not (length req.exp == length req.player_ids)
            || not (length req.coin == length req.player_ids)
            || not (length req.kill_count == length req.player_ids))
          ≡ false =
        ground (arith, a, b, c) in
      rw fits (
        settle_response-IsTaken
          (settle_up_room users req.player_ids req.exp req.coin req.kill_count s).1
          (settle_up_room-no_panic req.player_ids req.exp req.coin req.kill_count s a b c))

  -- The logicserver takes the settlement that finishRoom sends for any room and players: it does
  -- not answer that the lengths differ, and its loop indexes no slice out of range.
  pub settle_up_game-settlement :
      {F W : Type 0} (r : Room F W) (ids : List ℕ) (s : S)
      → let sent : Settlement = settlement ids (kill_counts r ids) in
        IsTaken ((settle_up_game users (request_of sent) s).1)
  unfolding settlement
  settle_up_game-settlement r ids s =
      let kills = kill_counts r ids in
      let sent : Settlement = settlement ids kills in
      let (k, c, e) = settlement-lengths r ids in
      settle_up_game-IsTaken (request_of sent) s (length-map sent.exp pos ∙ e)
        (length-map sent.coin pos ∙ c) (length-map sent.kill_count pos ∙ k)
