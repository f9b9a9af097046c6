-- ===== src/Stats.antt =====
-- server/src/stats/player_profile_service.cpp and server/src/stats/match_stats.cpp with their headers:
-- the results of matches, the profiles that add them up, and the leaderboard that the profiles feed.
pub mod Profiles
pub mod Linked
pub mod Ranking
pub mod Collector
pub mod Damage
mod Examples
