-- ===== src/Audit.antt =====
-- `AuditService` and its entity.
pub mod Entity
pub mod Writing
pub mod Queries
