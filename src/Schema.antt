-- ===== src/Schema.antt =====
-- The documents that the server takes in, of crates/ao2-cp-schema: acceptance.rs, memory.rs,
-- control_plane.rs and responses.rs.
pub mod Acceptance
pub mod Memory
pub mod ControlPlane
pub mod Responses
