-- ===== src/TrackingModel.antt =====
-- pkg/trackingmodel: the frames that plugins send, with their validity bits, and their checks.
pub mod Names
pub mod Expressions
pub mod Frame
pub mod Masks
pub mod Canonical
