-- ===== src/ParameterDeps.antt =====
-- internal/parameterdeps: which tracking data a parameter is made from.
pub mod Fields
pub mod Plans
pub mod Leaves
