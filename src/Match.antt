-- ===== src/Match.antt =====
-- The way of a player from the login to a room: logicserver/logic/match.go and
-- logicserver/service/service.go over matchserver/service/service.go.
pub mod Service
pub mod Lobby
pub mod Entry
pub mod Join
mod Tests
