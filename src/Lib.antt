-- ===== src/Lib.antt =====
-- ao2-control-plane: the storage of evidence bundles, its index and its retention, the audit log, and
-- the guards in front of the handlers of the HTTP server.
--
-- The storage crate keeps every ingested document as a file that its SHA-256 names, below a directory
-- for its kind (the bundle store), and one line for each in an append-only ledger with a resident copy
-- (the index). Retention prunes old bundles by the index and rewrites it, and the start of a storage
-- removes bundles that the index does not know. The server checks a bearer token, takes in documents
-- (parsed, digested in canonical JSON, with a signature sidecar where they are signed), gives them out
-- again by digest, and records every request in the audit log, a ring buffer with a mirror file. The
-- support bundle reads index and sidecars and says whether a release decision is allowed. Reports
-- and prunes can be asked for over HTTP. For the promotion of Phase 1 the server takes in checklists,
-- signed decisions, smoke reports and readiness artifacts, lists the gaps that are open, and shows the
-- operator whether the candidate is ready.
--
-- Files:
--   Base, Base/*        shared names, Rust's `Result` and `?` as a state with early return, the stable
--                       sort of `slice::sort_by`, `str` methods on code points
--   Disk, Disk/*        the calls of std::fs: files by directory and name, and a list that says which
--                       of the next calls fail (a write after a first part of its bytes, with or
--                       without telling its caller)
--   Bundle, Bundle/*    crates/ao2-cp-storage/src/bundle.rs: `BundleKind`, `BundleStore`
--   Index, Index/*      crates/ao2-cp-storage/src/index.rs: `IndexStore`, with one function per method
--   Retention, .../*    crates/ao2-cp-storage/src/lib.rs: `retention_candidates`, `prune_retention`,
--                       `retention_report`
--   Sweep, Sweep/*      crates/ao2-cp-storage/src/lib.rs: `Storage::open`, `sweep_orphans`
--   Json, Json/*        serde_json's `Value`; crates/ao2-cp-schema/src/canonical.rs
--   Support, .../*      crates/ao2-cp-storage/src/lib.rs: `support_bundle`, its readiness and gaps
--   Schema/*            crates/ao2-cp-schema/src: acceptance.rs, memory.rs, control_plane.rs,
--                       responses.rs
--   AuditLog, .../*     crates/ao2-cp-server/src/audit_log.rs: `append`, `persist`, rotation
--   Server/AppError     crates/ao2-cp-server/src/error.rs, crates/ao2-cp-schema/src/error.rs
--   Server/Auth         crates/ao2-cp-server/src/auth.rs
--   Server/Signing, .../*     crates/ao2-cp-server/src/signing.rs
--   Server/Caching, .../*     crates/ao2-cp-server/src/handlers/caching.rs
--   Server/AuditQuery, .../*  crates/ao2-cp-server/src/handlers/audit_log.rs
--   Ingest, Ingest/*    crates/ao2-cp-server/src/handlers: memory.rs, acceptance.rs,
--                       control_plane.rs; one function per handler, over what they share
--   StorageHandlers, .../*    crates/ao2-cp-server/src/handlers/storage.rs: the report and the prune
--   Ingest/Values       what handlers/phase1_promotion.rs and provider_readiness.rs share: documents that
--                       are checked as JSON values
--   Promotion, .../*    crates/ao2-cp-server/src/handlers/phase1_promotion.rs: Validate and Smoke (the
--                       checks of a document), Handlers (posts and readers), Audit (the log of refused
--                       smoke reports), Summary, Decision, Evidence (what the dashboard shows of each),
--                       Gaps (the gap report), Dashboard, Panel (the panel of the operator)
--   Readiness, .../*    crates/ao2-cp-server/src/handlers/provider_readiness.rs
--   Tests, Tests/*      concrete inputs
--
-- A method takes the state and returns its result beside the new state, also when the result is an
-- error. A mutex that a method holds from its first to its last line makes it one step. Everything
-- recurses on lists, so there is no fuel.
--
-- Parameters: `Codec` is serde_json at an index entry, with `Prints` for what the index relies on
-- (one visible line that parses back); `digest` is SHA-256; the request id of an error answer;
-- `Crypto` is sha2 and rsa, `Outside` what the ingest handlers take from serde_json, base64 and
-- std, `print` is serde_json at a record of the log of refused reports, and the clock is read off
-- arguments. `reports` of the disk is tokio: which failing `write_all` returns its error itself; the
-- others leave it to the next write, and `sync_data` does not return it. A decoded record or an error text of serde is what these return. Sizes and counters of
-- 64 bits keep their wrap-around or saturation; counts of entries in memory do not wrap. Instants
-- of the index are nanoseconds since the earliest one. Directories are not entries of the disk: a
-- missing one reads as an empty one. The mirror file of the audit log is a list of whole lines.
--
-- Not modelled: the handlers of release publications and of the provider registry, the ingest of
-- evidence packs and operator packets, of the promotion its history, portable manifest and verification
-- of support bundles, the configuration, the routes and HTML rendering (dashboards are modelled up to
-- their JSON values); of the support bundle its constant texts, of the promotion dashboard the
-- correlation of the candidate, which decides nothing in it; the libraries axum, tokio, serde_json,
-- rsa and sha2.
pub mod Base
pub mod Disk
pub mod Bundle
pub mod Index
pub mod Retention
pub mod StorageHandlers
pub mod Promotion
pub mod Readiness
pub mod Sweep
pub mod Server
mod Tests
pub mod AuditLog
pub mod Json
pub mod Support
pub mod Schema
pub mod Ingest
