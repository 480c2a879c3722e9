-- ===== src/Evaluator.antt =====
-- internal/evaluator: the values of the parameters, computed from a processed frame.
pub mod Instructions
pub mod Compile
pub mod Snapshot
pub mod Evaluate
pub mod Sets
pub mod Order
pub mod Visits
pub mod Compiled
pub mod Grounded
pub mod Complete
pub mod Stored
pub mod Settled
pub mod Runs
pub mod Outputs
pub mod Ranges
pub mod Values
