-- ===== src/Health.antt =====
-- server/src/distributed/service_discovery.cpp: the health checker, and discovery over Redis.
pub mod Checker
pub mod Counting
pub mod Agreement
mod Examples
