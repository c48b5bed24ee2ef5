-- ===== src/Player/Mall.antt =====
-- logicserver/repo/mall.go and logicserver/logic/mall.go: the shop and a purchase in it.
use demo_server.Prelude.{ℕ, String, true, Option, none, some, List, [], ◌∷◌, if◌then◌else◌}
use demo_server.Prelude.Int.{ℤ}
use demo_server.Prelude.Actions.{Result, ok, err, Action, lift, ◌>>=◌}
use demo_server.Account.Signing.{JwtGo, JwtConfig, JwtError, JwtClaims, ParseError, parse_token}
use demo_server.Player.State.{Gun, owns, eq_ℤ}
use demo_server.Player.Mongo.{Collection}
use demo_server.Player.Users.{UserError, UserStore, buy_gun_to_player_ware}

-- The one document of the shop is its list of guns.
abbrev pub MallDocument : Type 0
MallDocument = List Gun

pub data MallError : Type 0 where
  token_too_old gun_not_found mall_failed : MallError
  token_refused : JwtError → MallError
  user_error : UserError → MallError

-- The projection by $elemMatch: only the first gun that matches is read.
abbrev pub only_gun : ℤ → List Gun → List Gun
only_gun id [] = []
only_gun id (g ∷ gs) = let rest = only_gun id gs in if eq_ℤ g.id id then g ∷ [] else rest

abbrev pub first_gun : List Gun → Result MallError Gun
first_gun [] = err gun_not_found
first_gun (g ∷ gs) = ok g

-- What the calls of the logic server answer to a token that does not parse.
abbrev pub mall_token : Result ParseError JwtClaims → Result MallError JwtClaims
mall_token (ok claims) = ok claims
mall_token (err e) = if e.expired then err token_too_old else err (token_refused e.cause)

module _ {M : Type 0} (mall : Collection M MallDocument) where
  unfoldable pub get_mall_all_details : M → Result MallError (List Gun)
  get_mall_all_details m = elim (mall.find_one (λ d. true) m) [
    | none ↦ err mall_failed
    | some none ↦ ok []
    | some (some gs) ↦ ok gs
  ]

  unfoldable pub get_gun_by_id : ℤ → M → Result MallError Gun
  get_gun_by_id id m = elim (mall.find_one (owns id) m) [
    | none ↦ err mall_failed
    | some none ↦ err gun_not_found
    | some (some gs) ↦ first_gun (only_gun id gs)
  ]

  module _ {S : Type 0} (users : UserStore S) (jwt : JwtGo) (conf : Option JwtConfig) where
    unfoldable pub with_user_error : Action S UserError Unit → Action S MallError Unit
    with_user_error m s =
        let (s', r) = m s in (s', elim r [ ok u ↦ ok u | err e ↦ err (user_error e) ])

    unfoldable pub buy_gun : String → ℤ → M → ℕ → Action S MallError Unit
    unfolding get_gun_by_id with_user_error
    buy_gun token gun_id m now = do
      claims ← lift (mall_token (parse_token jwt conf token now))
      gun ← lift (get_gun_by_id gun_id m)
      with_user_error (buy_gun_to_player_ware users claims.user_id gun)
