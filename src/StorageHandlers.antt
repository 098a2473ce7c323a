-- ===== src/StorageHandlers.antt =====
-- crates/ao2-cp-server/src/handlers/storage.rs: the report and the prune, which can be remote.
pub mod Guard
use ao2_control_plane.Base.{
  ℕ, String, ◌<>◌, Bool, true, false, not, ◌&&◌, ◌||◌, List, [], ◌∷◌, Option, none, some, Result,
  ok, err, Exec, ◌>>=◌, ◌>>◌, lift, convert, nat_eq, ◌==◌, if◌then◌else◌, contains,
}
use ao2_control_plane.Base.Text.{codes, codes_eq, trim, to_ascii_lowercase}
use ao2_control_plane.Index.State.{Storage}
use ao2_control_plane.Retention
use ao2_control_plane.Retention.{
  StorageError, RetentionPolicy, RetentionPruneResult, prune_retention,
}
use ao2_control_plane.Retention.Report.{RetentionReport, retention_report}
use ao2_control_plane.Server.AppError.{AppError}
use ao2_control_plane.Ingest.{Outside, Method, bundle_message, index_message}

pub record StoragePruneQuery : Type 0 where
  pub keep_latest : ℕ
  pub execute : Bool

unfoldable pub policy : ℕ → Result AppError RetentionPolicy
unfolding nat_eq
policy keep_latest =
    if keep_latest == 0
    then err (AppError.bad_request "keep_latest must be greater than zero")
    else ok (record { keep_latest = keep_latest })

-- The argument is the value of the variable of the environment, if it has one.
unfoldable pub destructive_prune_enabled : Option String → Bool
unfolding trim to_ascii_lowercase
destructive_prune_enabled none = false
destructive_prune_enabled (some value) =
    contains (codes "1" ∷ codes "true" ∷ codes "yes" ∷ codes "on" ∷ [])
      (to_ascii_lowercase (trim (codes value)))

abbrev pub prune_disabled : AppError
prune_disabled =
    AppError.forbidden
      "destructive prune (execute=true) is disabled on this server; set AO2_CP_ALLOW_DESTRUCTIVE_PRUNE=1 to enable, or omit execute for a dry run"

-- What stands under `if q.execute`, without the line of the log.
unfoldable pub check_leave : Option String → StoragePruneQuery → Result AppError (Unit {0})
unfolding destructive_prune_enabled
check_leave env q =
    if q.execute && not (destructive_prune_enabled env) then err prune_disabled else ok tt

module _ (o : Outside) where
  -- `to_string`
  abbrev storage_message : StorageError → String
  storage_message (StorageError.bundle e) = "bundle error: " <> bundle_message o e
  storage_message (StorageError.index e) = "index error: " <> index_message o e
  storage_message (StorageError.io e) = "io: " <> o.io_message e

  abbrev pub on_storage {ℓ} : {A : Type ℓ} → Retention.Method A → Method A
  on_storage m = convert (λ e. AppError.internal (storage_message e)) m

  -- The argument is the `keep_latest` of the query.
  unfoldable pub storage_report : ℕ → Method RetentionReport
  unfolding policy retention_report
  storage_report keep_latest = do
    p ← lift (policy keep_latest)
    on_storage (retention_report o.codec p)

  unfoldable pub storage_prune : Option String → StoragePruneQuery → Method RetentionPruneResult
  unfolding check_leave policy prune_retention
  storage_prune env q = do
    lift (check_leave env q)
    p ← lift (policy q.keep_latest)
    on_storage (prune_retention o.codec p (not q.execute))
