-- ===== src/Session.antt =====
-- server/src/storage: the session store in memory.
pub mod Store
pub mod Index
pub mod View
pub mod Cleanup
pub mod Contract
pub mod Orphans
mod Examples
