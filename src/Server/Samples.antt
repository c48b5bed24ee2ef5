-- ===== src/Server/Samples.antt =====
-- One room server without rooms, and a session.
use demo_server.Prelude.{ℕ, String, true, Option, some, List}
use demo_server.Prelude.Int.{pos}
use demo_server.Session.{Session, new_session}
use demo_server.Manager.{Manager, EquipAnswer, equip_response, new_room_manager}
use demo_server.Server.{ServerConfig}

abbrev pub settings : ServerConfig
settings = record { token_secret = "k"; server_id = "rs1" }

abbrev pub read_any : List ℕ → Option String
read_any payload = some "t"

abbrev pub flat_world : String → Option (Unit {0})
flat_world id = some tt

abbrev pub armed : EquipAnswer
armed = equip_response true (pos 1)

unfoldable pub caller : Session
unfolding new_session
caller = new_session "s-1" 8

unfoldable pub opened : Manager ℕ Unit
unfolding new_room_manager
opened = new_room_manager (pos 1) (pos 2) (pos 20) (pos 20) (pos 2) "map" "hash" (pos 100_000_000)
