-- ===== src/Smf.antt =====
-- The session management function (src/smf.h, src/smf.cpp, src/smf_server.cpp).
pub mod State
pub mod Handlers
pub mod Lifecycle
pub mod Silence
pub mod Reachable
