-- ===== src/Netcode.antt =====
-- server/src/netcode beside its input buffer: client_prediction.cpp, reconciliation.cpp and
-- lag_compensation.cpp with their headers.
pub mod Prediction
pub mod Replay
pub mod Rewind
pub mod Hits
pub mod Ledger
mod Examples
