-- ===== src/Target.antt =====
-- src/target: the description of the compilation target, and the layout of types on it.
pub mod Config
pub mod Info
pub mod Layout
