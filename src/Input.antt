-- ===== src/Input.antt =====
-- server/src/netcode/input_buffer.cpp: the inputs of a player in the order of their numbers.
pub mod Buffer
pub mod Sorted
pub mod Lookup
mod Examples
