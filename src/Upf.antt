-- ===== src/Upf.antt =====
-- The user plane function (src/upf.h, src/upf.cpp, src/upf_server.cpp).
pub mod State
pub mod Tables
pub mod Session
pub mod Handover
pub mod Server
pub mod Sessions
pub mod Replies
pub mod Requests
pub mod Lifecycle
pub mod Addresses
pub mod Downlink
pub mod Tunnels
pub mod Tests
mod TunnelTests
