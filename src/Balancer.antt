-- ===== src/Balancer.antt =====
-- server/src/distributed/load_balancer.cpp: the choice of a game server.
pub mod Pool
pub mod Registry
pub mod Choice
pub mod Least
pub mod Rotation
mod Examples
