-- ===== src/Audit.antt =====
-- internal/audit: the policy that decides on a package, and the state that carries decisions.
pub mod Types
pub mod Severity
pub mod Assess
pub mod Approvals
pub mod Evaluate
pub mod Confirm
pub mod Marker
pub mod Carry
pub mod Reports
pub mod Retention
pub mod Config
pub mod Transcript
pub mod Limits
pub mod Workspace
pub mod Artifact
pub mod Invocation
pub mod Batches
