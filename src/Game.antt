-- ===== src/Game.antt =====
-- Invariants of the game's state, which GameServer.cpp, Room.cpp and Player.cpp keep together.
pub mod Quiet
pub mod Maps
pub mod Wired
pub mod Handlers
pub mod Jobs
pub mod Keeps
pub mod Plays
pub mod Capacity
pub mod Live
pub mod Refusals
