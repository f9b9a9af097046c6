-- ===== src/Leaderboard.antt =====
-- server/src/stats/leaderboard_store.cpp: the players in the order of their scores.
pub mod Store
pub mod Consistent
pub mod Top
mod Examples
