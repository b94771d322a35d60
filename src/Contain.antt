-- ===== src/Contain.antt =====
-- internal/contain: the user namespace in which package code runs.
pub mod Subid
pub mod Mapping
