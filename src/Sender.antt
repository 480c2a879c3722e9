-- ===== src/Sender.antt =====
-- internal/osc: the sender of parameters over OSC.
pub mod Scalar
pub mod Builder
pub mod Outputs
pub mod Send
pub mod Messages
pub mod Datagrams
pub mod Delivery
pub mod Steady
pub mod Batches
pub mod Rounds
pub mod Repeats
