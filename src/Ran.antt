-- ===== src/Ran.antt =====
-- The simulated base station and UE (src/ran.h, src/ran.cpp).
pub mod State
pub mod Attach
pub mod Traffic
pub mod Session
pub mod Accepted
pub mod Handover
pub mod Keys
