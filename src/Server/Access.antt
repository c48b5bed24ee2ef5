-- ===== src/Server/Access.antt =====
-- roomserver/service/server.go: who gets into a room.
use demo_server.Prelude.{
  ℕ, String, Bool, true, false, Option, none, some, List, ◌==◌, ◌||◌, if◌then◌else◌, ite, ◌≡◌, refl,
  arith, ℕ_discrete,
}
use demo_server.Prelude.Text.{string_discrete, is_empty}
use demo_server.Prelude.Assoc.{insert}
use demo_server.Float.{Float}
use demo_server.Room.Vector.{zero_vector}
use demo_server.RoomToken.{Claims, Jwt, Result, ok, err, parse}
use demo_server.Session.{Session, set_player_of}
use demo_server.Manager.{Manager, ManagerError, EquipAnswer, join_room}
use demo_server.Manager.Index.{index_after, index-join_room}
use demo_server.Server.{
  ErrorCode, bad_request, ServerConfig, Handled, player_for, after_join_room, with_claims,
  with_token, handle_join_room,
}

module _ {F W : Type 0} (cfg : ServerConfig) (s : Session) (m : Manager F W) where
  -- The claims let their player into their room of this server.
  abbrev pub Admits : Claims → Type 0
  Admits c = (c.server_id ≡ cfg.server_id) × (is_empty c.room_id ≡ false) × ¬ (c.player_id ≡ 0)

  -- With an error nothing of the session and of the index has changed; without one the token's
  -- player is bound to the session and entered into the index, under the token's room.
  abbrev pub IsAccess : Result Claims → Handled F W → Option ErrorCode → Type 0
  IsAccess read h (some code) = (h.session ≡ s) × (h.manager.player_rooms ≡ m.player_rooms)
  IsAccess read h none =
      (c : Claims) × (read ≡ ok c)
      × Admits c
      × (h.session ≡ set_player_of c.player_id c.room_id s)
      × (h.manager.player_rooms ≡ insert ℕ_discrete c.player_id c.room_id m.player_rooms)

  after_join_room-IsAccess :
      (c : Claims) (o : Manager F W × Option ManagerError)
      → Admits c
      → o.0.player_rooms ≡ index_after o.1 c.player_id c.room_id m
      → IsAccess (ok c) (after_join_room c s o) (after_join_room c s o).error
  after_join_room-IsAccess c (n, some e) a h = (refl, h)
  after_join_room-IsAccess c (n, none) a h = (c, refl, a, refl, h)

  IsAccess-if :
      (b : Bool) (read : Result Claims) (x y : Handled F W)
      → (b ≡ true → IsAccess read x x.error)
      → (b ≡ false → IsAccess read y y.error)
      → (let h : Handled F W = if b then x else y in IsAccess read h h.error)
  IsAccess-if true read x y p q = p refl
  IsAccess-if false read x y p q = q refl

module _ {F W : Type 0} (fl : Float F) (new_world : String → Option W) (equip : EquipAnswer)
    (cfg : ServerConfig) where
  with_claims-IsAccess :
      (s : Session) (m : Manager F W) (read : Result Claims)
      → IsAccess cfg s m read
          (with_claims fl new_world equip cfg s m read)
          (with_claims fl new_world equip cfg s m read).error
  unfolding with_claims player_for
  with_claims-IsAccess s m (err e) = (refl, refl)
  with_claims-IsAccess s m (ok c) =
      IsAccess-if cfg s m (ite (string_discrete c.server_id cfg.server_id) false true) (ok c) _ _
        (λ e. (refl, refl))
        (λ e.
          IsAccess-if cfg s m (is_empty c.room_id || c.player_id == 0) (ok c) _ _
            (λ d. (refl, refl))
            (λ d.
              after_join_room-IsAccess cfg s m c
                (join_room (zero_vector fl) new_world equip c.room_id (player_for fl c s) m)
                (ground (arith, e), ground (arith, d), λ z. ground (arith, d, z))
                (index-join_room (zero_vector fl) new_world equip c.room_id (player_for fl c s) m)))

  -- What `decode` read of the payload, parsed under the server's secret.
  abbrev pub read_token : Jwt → ℕ → Option String → Option (Result Claims)
  unfolding parse
  read_token jwt now none = none
  read_token jwt now (some token) = some (parse jwt cfg.token_secret token now)

  abbrev pub IsAccessOf : Session → Manager F W → Option (Result Claims) → Handled F W → Type 0
  IsAccessOf s m none h = (h.error ≡ some bad_request) × (h.session ≡ s) × (h.manager ≡ m)
  IsAccessOf s m (some read) h = IsAccess cfg s m read h h.error

  with_token-IsAccess :
      (jwt : Jwt) (now : ℕ) (s : Session) (m : Manager F W) (o : Option String)
      → IsAccessOf s m (read_token jwt now o) (with_token fl new_world equip cfg jwt now s m o)
  unfolding read_token with_token
  with_token-IsAccess jwt now s m none = (refl, refl, refl)
  with_token-IsAccess jwt now s m (some token) =
      with_claims-IsAccess s m (parse jwt cfg.token_secret token now)

  -- A session gets into a room only with a token that parses under the server's secret, names this
  -- server, a room and a player; then it is bound to that player and that room and the index has
  -- them. With any error the session and the index are as they were.
  pub handle_join_room-IsAccess :
      (decode : List ℕ → Option String) (jwt : Jwt) (now : ℕ) (payload : List ℕ) (s : Session)
      (m : Manager F W)
      → IsAccessOf s m
          (read_token jwt now (decode payload))
          (handle_join_room fl new_world equip cfg decode jwt now payload s m)
  unfolding handle_join_room
  handle_join_room-IsAccess decode jwt now payload s m =
      with_token-IsAccess jwt now s m (decode payload)
