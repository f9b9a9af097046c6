-- ===== src/Snapshot.antt =====
-- snapshot_manager.cpp and snapshot_manager.h: snapshots, deltas and the ring that keeps them.
pub mod Types
pub mod Manager
pub mod Deltas
pub mod History
pub mod Recall
pub mod Wire
pub mod Size
pub mod Changes
pub mod Patch
pub mod Follow
pub mod Tracking
mod Examples
