-- ===== src/Ban.antt =====
-- server/src/anticheat/ban_service.cpp: bans by player, hardware and address.
pub mod Service
pub mod Checks
pub mod Escalation
pub mod Cleanup
pub mod Lifting
mod Examples
