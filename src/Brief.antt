-- ===== src/Brief.antt =====
-- internal/brief: the inspection of recipes, sources and packages.
pub mod Diff
pub mod PackageBase
pub mod Findings
pub mod Manifest
pub mod Path
pub mod Mtree
pub mod Filter
pub mod Surfaces
