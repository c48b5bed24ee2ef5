-- ===== src/Player.antt =====
-- The players and what they own: logicserver/repo/user.go and mall.go, logicserver/logic/mall.go
-- and player_info.go.
pub mod State
pub mod Mongo
pub mod Users
pub mod Documents
pub mod Wallet
pub mod Narrow
pub mod Outcome
pub mod Purchase
pub mod Settle
pub mod Mall
pub mod Info
pub mod Service
pub mod Delivered
pub mod Memory
mod Tests
