-- ===== src/Account.antt =====
-- The accounts of the logic server: pkg/jwt/jwt.go, logicserver/repo/token.go and
-- logicserver/logic/auth.go.
pub mod Signing
pub mod Redis
pub mod Sessions
pub mod Login
pub mod Register
pub mod Active
pub mod Fields
pub mod Issued
pub mod Hidden
pub mod Memory
pub mod Samples
mod Tests
