-- ===== src/Amf.antt =====
-- The access and mobility management function (src/amf.h, src/amf.cpp, src/amf_server.cpp).
pub mod State
pub mod Clients
pub mod Attach
pub mod Session
pub mod Handover
pub mod Server
pub mod Switch
pub mod Identity
pub mod Ids
pub mod Runs
pub mod Replies
