-- ===== src/Cases.antt =====
-- Concrete packets and contexts for the examples of the control plane, and the examples.
mod Data
mod Registration
mod Simulator
mod SecurityMode
mod Smf
mod Amf
mod UserPlane
mod Core
mod System
mod Runs
mod Sctp
mod Ran
mod DataPlane
