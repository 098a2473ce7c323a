-- ===== src/Server.antt =====
-- What stands between a request and its handler, and between a handler's error and the answer:
-- crates/ao2-cp-server/src/error.rs, auth.rs, handlers/caching.rs and the filters of
-- handlers/audit_log.rs.
pub mod AppError
pub mod Auth
pub mod Signing
pub mod Caching
pub mod AuditQuery
