-- ===== src/Ddns.antt =====
-- The writer of dynamic DNS, internal/ddns.
pub mod Plan
pub mod Writer
pub mod Queue
pub mod Audit
