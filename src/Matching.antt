-- ===== src/Matching.antt =====
-- server/src/matchmaking: the queue of waiting players and the rounds that pair them.
pub mod Request
pub mod Queue
pub mod Maker
pub mod Pairing
pub mod Leftover
pub mod Order
pub mod Fair
pub mod Round
pub mod Metrics
mod Examples
