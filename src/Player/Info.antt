-- ===== src/Player/Info.antt =====
-- logicserver/logic/player_info.go: what a player asks and changes of itself, and the settlement
-- of a match.
use demo_server.Prelude.{ℕ, String, not, Option, List, [], ◌∷◌, ◌==◌, if◌then◌else◌}
use demo_server.Prelude.Int.{ℤ}
use demo_server.Prelude.Text.{is_empty}
use demo_server.Prelude.Actions.{Result, ok, err, Action, lift, guard, ◌>>=◌, ◌>>◌}
use demo_server.Account.Signing.{JwtGo, JwtConfig, JwtError, JwtClaims, ParseError, parse_token}
use demo_server.Player.State.{Gun, UserInfo}
use demo_server.Player.Users.{
  UserError, UserStore, find_by_user_id, modify_nickname, modify_profile_photo,
  set_player_equip_gun, add_player_exp_level_coin, get_player_ware_details, get_player_equip_gun_id,
}

pub data InfoError : Type 0 where
  token_is_empty nickname_is_empty token_too_old : InfoError
  token_refused : JwtError → InfoError
  user_error : UserError → InfoError

-- What the calls answer to a token that does not parse.
abbrev pub info_token : Result ParseError JwtClaims → Result InfoError JwtClaims
info_token (ok claims) = ok claims
info_token (err e) = if e.expired then err token_too_old else err (token_refused e.cause)

abbrev pub user_result : {A : Type 0} → Result UserError A → Result InfoError A
user_result (ok a) = ok a
user_result (err e) = err (user_error e)

unfoldable pub user_action : {S A : Type 0} → Action S UserError A → Action S InfoError A
user_action m s = let (s', r) = m s in (s', user_result r)

-- An access outside a slice ends the call with a panic.
pub data Panic : Type 0 where
  index_out_of_range : Panic

-- The errors that multierror collects, each with its player.
abbrev pub Failures : Type 0
Failures = List (ℕ × UserError)

abbrev pub note_failure : ℕ → Result UserError Unit → Failures → Failures
note_failure player (ok u) fs = fs
note_failure player (err e) fs = (player, e) ∷ fs

abbrev pub note_result : ℕ → Result UserError Unit → Result Panic Failures → Result Panic Failures
note_result player r (ok fs) = ok (note_failure player r fs)
note_result player r (err p) = err p

module _ {S : Type 0} (users : UserStore S) where
  -- The loop of SettleUpRoom over the players and the three slices beside them.
  unfoldable pub settle_up_room : List ℕ → List ℤ → List ℤ → List ℤ → Action S Panic Failures
  settle_up_room [] exps coins kills s = (s, ok [])
  settle_up_room (p ∷ ps) (e ∷ es) (c ∷ cs) (k ∷ ks) s =
      let (s₁, r) = add_player_exp_level_coin users p e c k s in
      let (s₂, rest) = settle_up_room ps es cs ks s₁ in (s₂, note_result p r rest)
  settle_up_room (p ∷ ps) [] cs ks s = (s, err index_out_of_range)
  settle_up_room (p ∷ ps) (e ∷ es) [] ks s = (s, err index_out_of_range)
  settle_up_room (p ∷ ps) (e ∷ es) (c ∷ cs) [] s = (s, err index_out_of_range)

  module _ (jwt : JwtGo) (conf : Option JwtConfig) where
    unfoldable pub claims_of : String → ℕ → Result InfoError JwtClaims
    claims_of token now = info_token (parse_token jwt conf token now)

    unfoldable pub modify_player_nickname : String → String → ℕ → Action S InfoError Unit
    unfolding claims_of user_action
    modify_player_nickname token nickname now s =
        (do
          guard (not (is_empty token)) token_is_empty
          guard (not (is_empty nickname)) nickname_is_empty
          claims ← lift (claims_of token now)
          info ← lift (user_result (find_by_user_id users claims.user_id s))
          user_action (modify_nickname users claims.user_id nickname))
          s

    unfoldable pub modify_player_profile_photo : String → ℤ → ℕ → Action S InfoError Unit
    unfolding claims_of user_action
    modify_player_profile_photo token photo_id now s =
        (do
          guard (not (is_empty token)) token_is_empty
          claims ← lift (claims_of token now)
          info ← lift (user_result (find_by_user_id users claims.user_id s))
          user_action (modify_profile_photo users claims.user_id photo_id))
          s

    unfoldable pub equip_gun : String → ℤ → ℕ → Action S InfoError Unit
    unfolding claims_of user_action
    equip_gun token gun_id now = do
      claims ← lift (claims_of token now)
      user_action (set_player_equip_gun users claims.user_id gun_id)

    unfoldable pub get_player_info : String → ℕ → ℕ → S → Result InfoError UserInfo
    unfolding claims_of
    get_player_info token player_id now s =
        if is_empty token then err token_is_empty else elim (claims_of token now) [
          | err e ↦ err e
          | ok claims ↦
              user_result
                (find_by_user_id users (if player_id == 0 then claims.user_id else player_id) s)
        ]

    unfoldable pub get_ware_details : String → ℕ → ℕ → S → Result InfoError (List Gun)
    unfolding claims_of
    get_ware_details token player_id now s = elim (claims_of token now) [
      | err e ↦ err e
      | ok claims ↦
          user_result
            (get_player_ware_details users (if player_id == 0 then claims.user_id else player_id) s)
    ]

    -- The token is read only when no player is named.
    unfoldable pub get_equip_gun : String → ℕ → ℕ → S → Result InfoError ℤ
    unfolding claims_of
    get_equip_gun token player_id now s =
        if player_id == 0
        then (if is_empty token then err token_is_empty else elim (claims_of token now) [
          | err e ↦ err e
          | ok claims ↦ user_result (get_player_equip_gun_id users claims.user_id s)
        ])
        else user_result (get_player_equip_gun_id users player_id s)
