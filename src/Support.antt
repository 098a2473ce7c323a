-- ===== src/Support.antt =====
-- The support bundle of crates/ao2-cp-storage/src/lib.rs: what a release decision still lacks, by the
-- index and the signature sidecars.
pub mod State
pub mod Artifacts
pub mod Requirements
pub mod Gaps
pub mod Counts
pub mod Sidecars
pub mod Unsigned
pub mod Ready
