-- ===== src/Room.antt =====
-- roomserver/logic: one room, its players, their inputs and the frames of the match.
pub mod State
pub mod Vector
pub mod Movement
pub mod Create
pub mod Join
pub mod Inputs
pub mod Schedule
pub mod Waiting
pub mod Fire
pub mod Update
pub mod Frame
pub mod Loop
pub mod Lifetime
pub mod Ending
pub mod Lasting
pub mod Evolve
pub mod Evolution
pub mod Simulated
pub mod Seats
pub mod Roster
pub mod Capacity
pub mod Start
pub mod Score
pub mod Samples
mod Tests
