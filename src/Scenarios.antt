-- ===== src/Scenarios.antt =====
-- Concrete frames, services and pipelines, and the theorems applied to them.
pub mod Data
pub mod Frames
pub mod Services
pub mod Pipelines
pub mod Groups
pub mod Values
pub mod Packets
pub mod Sends
pub mod Plans
pub mod Renewals
