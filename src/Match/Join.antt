-- ===== src/Match/Join.antt =====
-- logicserver/logic/match.go and roomserver/service/server.go: from the answer of MatchRoom to the
-- seat in the room.
use demo_server.Prelude.{ℕ, String, Option, some, none, List, All, ◌≤◌, ◌≡◌, sym, subst, ◌∙◌}
use demo_server.Prelude.Text.{trim_space}
use demo_server.Prelude.Actions.{ok}
use demo_server.Float.{Float}
use demo_server.RoomToken
use demo_server.RoomToken.{Jwt, Claims, parse, second}
use demo_server.RoomToken.Laws.{IsJwt}
use demo_server.Matching.State
use demo_server.Matching.State.{Matcher}
use demo_server.Matching.Config.{MatchServerConfig, new_matcher}
use demo_server.Matching.Allocate.{Env}
use demo_server.Matching.Histories.{Call, run}
use demo_server.Session.{Session, set_player_of}
use demo_server.Manager.{Manager, EquipAnswer}
use demo_server.Server.{ServerConfig, Handled, ErrorCode, handle_join_room}
use demo_server.Server.Access.{IsAccess, IsAccessOf, read_token, handle_join_room-IsAccess}
use demo_server.Account.Login.{AuthLogic, LoginResult}
use demo_server.Match.Lobby.{Delivery, Backend, MatchRoomResult, match_room}
use demo_server.Match.Entry.{IsKnown, Seats, IsMatched, match_room-IsMatched}

module _ {R U F W : Type 0} (l : AuthLogic R U) (jwt : Jwt) where
  -- With no error the session is bound to a user for whom the token store had a session, in the room
  -- that was answered, of this server; with an error it is as it was.
  abbrev pub IsSeated :
      R
      → String
      → String
      → ℕ
      → MatchRoomResult
      → ServerConfig
      → Session
      → Handled F W
      → Option ErrorCode
      → Type 0
  IsSeated s access refresh now r node session h none =
      (v : LoginResult) × IsKnown l jwt s access refresh now v
      × (r.server_id ≡ node.server_id)
      × (h.session ≡ set_player_of v.user_id r.room_id session)
  IsSeated s access refresh now r node session h (some code) = h.session ≡ session

  IsAccess-IsSeated :
      (s : R) (access refresh : String) (now : ℕ) (r : MatchRoomResult) (node : ServerConfig)
      (session : Session) (n : Manager F W) (v : LoginResult) (read : RoomToken.Result Claims)
      (h : Handled F W)
      → IsKnown l jwt s access refresh now v
      → Seats l jwt v.user_id r read
      → (e : Option ErrorCode) → IsAccess node session n read h e
      → IsSeated s access refresh now r node session h e
  IsAccess-IsSeated s access refresh now r node session n v read h known seats (some code) a = a.0
  IsAccess-IsSeated s access refresh now r node session n v read h known seats none
        (c, got, admits, bound, entered) =
      let (player, room, server) = subst (Seats l jwt v.user_id r) got seats in
      (
        v,
        known,
        sym server ∙ admits.0,
        subst (λ x. h.session ≡ set_player_of x r.room_id session) player
            (subst (λ x. h.session ≡ set_player_of c.player_id x session) room bound),
      )

module _ {R U F W : Type 0} (l : AuthLogic R U) (jwt : Jwt) (laws : IsJwt jwt)
    (cfg : MatchServerConfig) (m : Matcher) (cs : List Call) (env : Env)
    (new : new_matcher cfg ≡ State.ok m) (clocks : All (λ c. second ≤ c.env.token_now) cs)
    (clock : second ≤ env.token_now) where
  -- Who joins with the room token of an answer of MatchRoom, at a room server with the matcher's
  -- secret and at any time, is bound to a user for whom the token store had a session when MatchRoom
  -- was called, in the room that was answered and on the server that was answered; or an error is
  -- sent and the session is as it was.
  pub handle_join_room-IsSeated :
      (s : R) (d : Delivery) (access refresh mode : String) (now : ℕ) (r : MatchRoomResult)
      (fl : Float F) (new_world : String → Option W) (equip : EquipAnswer) (node : ServerConfig)
      (decode : List ℕ → Option String) (later : ℕ) (payload : List ℕ) (session : Session)
      (n : Manager F W)
      → (match_room l jwt access refresh mode now env d
          (record { sessions = s; matcher = run jwt m cs })).1
        ≡ ok r
      → node.token_secret ≡ m.token_secret
      → decode payload ≡ some r.room_token
      → let h = handle_join_room fl new_world equip node decode jwt later payload session n in
        IsSeated l jwt s
          (trim_space (trim_space access))
          (trim_space (trim_space refresh))
          now
          r
          node
          session
          h
          h.error
  unfolding handle_join_room
  handle_join_room-IsSeated s d access refresh mode now r fl new_world equip node decode later
        payload session n e secret sent =
      let b : Backend R = record { sessions = s; matcher = run jwt m cs } in
      let h = handle_join_room fl new_world equip node decode jwt later payload session n in
      let access' = trim_space (trim_space access) in
      let refresh' = trim_space (trim_space refresh) in
      let (v, known, _, _, seats) =
        subst
          (IsMatched l jwt m.token_secret b (match_room l jwt access refresh mode now env d b).0
            access' refresh' now)
          e
          (match_room-IsMatched l jwt laws cfg m cs env new clocks clock s d access refresh mode
            now) in
      IsAccess-IsSeated l jwt s access' refresh' now r node session n v
        (parse jwt m.token_secret r.room_token later) h known (seats later) h.error
        (subst (λ secret. IsAccess node session n (parse jwt secret r.room_token later) h h.error)
          secret
          (subst
            (λ o.
              IsAccessOf fl new_world equip node session n
                (read_token fl new_world equip node jwt later o) h)
            sent
            (handle_join_room-IsAccess fl new_world equip node decode jwt later payload session n)))
