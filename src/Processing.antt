-- ===== src/Processing.antt =====
-- internal/processing: calibration, tuning, filtering and loss of signal, channel by channel.
pub mod Channel
pub mod Config
pub mod Shaping
pub mod Filter
pub mod Dropout
pub mod Mutual
pub mod Validation
pub mod Pipeline
pub mod Output
pub mod Step
pub mod Sequencing
pub mod Runs
pub mod Silence
pub mod Exclusion
pub mod Groups
pub mod Disjoint
pub mod Compiled
pub mod Published
pub mod Inputs
pub mod Handoff
pub mod Bounds
pub mod Sizes
pub mod Numbering
pub mod Readings
pub mod Renewal
pub mod Prepared
pub mod Renewed
