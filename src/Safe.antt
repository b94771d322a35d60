-- ===== src/Safe.antt =====
-- internal/safe: digests, and the answers that are read from the controlling terminal.
pub mod Digest
pub mod Prompt
pub mod Content
