-- ===== src/Game.antt =====
-- The game's own state: the server directory's include/pvpserver/game and src/game.
pub mod Player
pub mod Combat
pub mod Projectile
pub mod Session
pub mod Tick
pub mod Lives
pub mod Invariant
pub mod Hits
pub mod Calls
pub mod Inputs
pub mod Tally
mod Examples
