-- ===== src/Client.antt =====
-- src/client/client.cpp: one session of the client.
pub mod Matching
pub mod State
pub mod Calls
pub mod Workers
pub mod Invariant
pub mod Steps
pub mod Admission
pub mod Settlement
pub mod Holding
pub mod Settling
pub mod Once
pub mod Correlation
