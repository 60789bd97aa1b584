-- ===== src/Tests.antt =====
-- Sample sessions, games and packets, and runs of the model on them.
pub mod Data
pub mod Receiving
pub mod Sessions
pub mod Games
pub mod Runs
pub mod Layout
pub mod Console
pub mod Threads
pub mod Lobby
pub mod Delivery
pub mod Seating
