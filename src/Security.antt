-- ===== src/Security.antt =====
-- kernel/src/security: the chain of audit records.
pub mod AuditChain
