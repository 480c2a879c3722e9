-- ===== src/Tracking.antt =====
-- internal/tracking: frames of several plugins are checked, kept, and merged into one.
pub mod Routing
pub mod Merged
pub mod Rejections
pub mod Service
pub mod Submit
pub mod Invariant
pub mod Order
pub mod Refusals
pub mod Acceptance
