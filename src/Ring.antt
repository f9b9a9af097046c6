-- ===== src/Ring.antt =====
-- server/src/distributed/consistent_hash.cpp: the hash ring.
pub mod Hash
pub mod Table
pub mod Movement
pub mod Members
pub mod Walk
pub mod Replicas
pub mod Distribution
mod Examples
