-- ===== src/Matching/State.antt =====
-- matchserver/logic/matcher.go: the data of the allocator. A time is a number of nanoseconds.
use demo_server.Prelude.{ℕ, String, ◌≡◌, ap, List, ℕ_discrete}
use demo_server.Prelude.Text.{string_discrete}

pub record ReservationKey : Type 0 where
  pub player_id : ℕ
  pub mode : String

pub key_path : {a b : ReservationKey} → a.player_id ≡ b.player_id → a.mode ≡ b.mode → a ≡ b
key_path p q = λ i. record { player_id = p i; mode = q i }

unfoldable pub key_discrete : Discrete ReservationKey
unfolding ℕ_discrete string_discrete
key_discrete a b = elim (ℕ_discrete a.player_id b.player_id) [
  | yes p ↦ elim (string_discrete a.mode b.mode) [
    | yes q ↦ yes (key_path p q)
    | no q ↦ no (λ e. q (ap (λ (k : ReservationKey). k.mode) e))
  ]
  | no p ↦ no (λ e. p (ap (λ (k : ReservationKey). k.player_id) e))
]

-- `room` is the pointer to the room: the number that its allocation was given.
pub record Reservation : Type 0 where
  pub key : ReservationKey
  pub server_id : String
  pub server_addr : String
  pub room_id : String
  pub match_id : String
  pub room_token : String
  pub expire_at : ℕ
  pub room : ℕ

-- `ref` is the address of the room; the map holds the same reservations as the matcher's.
pub record RoomState : Type 0 where
  pub ref : ℕ
  pub id : String
  pub mode : String
  pub reservations : List (ReservationKey × Reservation)

pub record ServerState : Type 0 where
  pub id : String
  pub addr : String
  pub max_rooms : ℕ
  pub max_players : ℕ
  pub rooms : List RoomState

-- `next_ref` is the address that the next `&roomState{…}` gets.
pub record Matcher : Type 0 where
  pub token_secret : String
  pub token_expire : ℕ
  pub servers : List ServerState
  pub reservations : List (ReservationKey × Reservation)
  pub sequence : ℕ  -- uint64
  pub next_ref : ℕ

pub record AllocateResult : Type 0 where
  pub room_id : String
  pub server_id : String
  pub server_addr : String
  pub match_id : String
  pub room_token : String
  pub expire_at : ℕ  -- milliseconds

pub data Error : Type 0 where
  invalid_player no_available_server room_server_full room_token_secret_empty : Error
  generate_room_id generate_room_token : Error

pub data Result (A : Type 0) : Type 0 where
  ok : A → Result A
  err : Error → Result A
