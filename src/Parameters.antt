-- ===== src/Parameters.antt =====
-- internal/parameters: the parameters that avatars know, and their names.
pub mod Definition
pub mod Table
pub mod Names
pub mod Types
