-- ===== src/Osc.antt =====
-- pkg/osc: the packets of OSC.
pub mod Values
pub mod Padding
pub mod Aligned
pub mod Encode
pub mod Decode
pub mod RoundTrip
pub mod Messages
pub mod Elements
pub mod Bundles
