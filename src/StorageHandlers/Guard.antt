-- ===== src/StorageHandlers/Guard.antt =====
-- A remote prune without leave.
use ao2_control_plane.Base.{
  ℕ, zero, suc, sym, ◌≡◌, ◌<◌, refl, Bool, true, false, ◌&&◌, Option, String, Result, ok, err,
  arith, nat_eq, continue, map_err, List,
}
use mathlib.Core.Path.{subst}
use ao2_control_plane.Index.State.{Storage, Codec, IndexEntry}
use ao2_control_plane.Index.{read_all}
use ao2_control_plane.Retention.{
  StorageError, Method, RetentionPolicy, RetentionPruneResult, prune_retention, carry_out, on_index,
}
use ao2_control_plane.Retention.Removal.{files-prune_retention_dry}
use ao2_control_plane.Server.AppError.{AppError}
use ao2_control_plane.Ingest.{Outside}
use ao2_control_plane.StorageHandlers.{
  StoragePruneQuery, policy, destructive_prune_enabled, check_leave, on_storage, prune_disabled,
  storage_prune,
}

-- An answer that says that it was a dry run, by the policy of the query, which keeps something.
abbrev pub DryAnswer : StoragePruneQuery → Result AppError RetentionPruneResult → Type 0
DryAnswer q (ok r) = (r.dry_run ≡ true) × (r.keep_latest ≡ q.keep_latest) × (0 < q.keep_latest)
DryAnswer q (err e) = Unit

-- What a dry run answers with of its policy.
abbrev Reports : RetentionPolicy → Result StorageError RetentionPruneResult → Type 0
Reports p (ok r) = (r.dry_run ≡ true) × (r.keep_latest ≡ p.keep_latest)
Reports p (err e) = Unit

after_entries :
    (p : RetentionPolicy) (r : Result StorageError (List IndexEntry))
    (f : List IndexEntry → Method RetentionPruneResult) (s : Storage)
    → ((es : List IndexEntry) (t : Storage) → Reports p (f es t).0)
    → Reports p (continue r f s).0
after_entries p (ok es) f s each = each es s
after_entries p (err e) f s each = tt

prune_retention-Reports :
    (c : Codec) (p : RetentionPolicy) (s : Storage) → Reports p (prune_retention c p true s).0
unfolding prune_retention carry_out
prune_retention-Reports c p s =
    let (r, t) = on_index (read_all c) s in after_entries p r _ t (λ es u. (refl, refl))

Reports-DryAnswer :
    (q : StoragePruneQuery) (f : StorageError → AppError)
    (r : Result StorageError RetentionPruneResult)
    → 0 < q.keep_latest
    → Reports (record { keep_latest = q.keep_latest }) r
    → DryAnswer q (map_err f r)
Reports-DryAnswer q f (ok r) positive h = (h.0, h.1, positive)
Reports-DryAnswer q f (err e) positive h = tt

-- The answer to a prune and the files after it.
abbrev pub IsHarmless :
    StoragePruneQuery → Storage → Result AppError RetentionPruneResult × Storage → Type 0
IsHarmless q s (r, t) = DryAnswer q r × (t.host.files ≡ s.host.files)

policy-zero :
    (q : ℕ) → q ≡ 0 → policy q ≡ err (AppError.bad_request "keep_latest must be greater than zero")
unfolding policy
policy-zero q e = ground arith

policy-positive : (n : ℕ) → 0 < n → policy n ≡ ok (record { keep_latest = n })
unfolding policy
policy-positive n e = ground arith

-- The steps of a dry run after its policy.
abbrev dry_run_by :
    (o : Outside)
    → Result AppError RetentionPolicy
    → Storage
    → Result AppError RetentionPruneResult × Storage
dry_run_by o r = continue r (λ p. on_storage o (prune_retention o.codec p true))

dry_run_by-IsHarmless :
    (o : Outside) (n : ℕ) (s : Storage)
    → IsHarmless (record { keep_latest = n; execute = false }) s (dry_run_by o (policy n) s)
dry_run_by-IsHarmless o zero s = rw (policy-zero 0 refl) (tt, refl)
dry_run_by-IsHarmless o (suc n) s =
    let p : RetentionPolicy = record { keep_latest = suc n } in
    rw (policy-positive (suc n) (omega arith)) (
      Reports-DryAnswer (record { keep_latest = suc n; execute = false }) _
          (prune_retention o.codec p true s).0 (omega arith) (prune_retention-Reports o.codec p s),
      files-prune_retention_dry o.codec p s,
    )

storage_prune-disabled :
    (o : Outside) (env : Option String) (n : ℕ) (s : Storage)
    → destructive_prune_enabled env ≡ false
    → storage_prune o env (record { keep_latest = n; execute = true }) s ≡ (err prune_disabled, s)
unfolding storage_prune check_leave
storage_prune-disabled o env n s e = rw (e) refl

-- A remote prune that does not ask for the execution, or asks a server whose environment does not
-- enable it, changes no file, and if it is answered by a result, this is that of a dry run by the number
-- of the query, which is not zero.
pub storage_prune-IsHarmless :
    (o : Outside) (env : Option String) (n : ℕ) (execute : Bool) (s : Storage)
    → (execute && destructive_prune_enabled env) ≡ false
    → IsHarmless
        (record { keep_latest = n; execute = execute })
        s
        (storage_prune o env (record { keep_latest = n; execute = execute }) s)
storage_prune-IsHarmless o env n false s e =
    unfold storage_prune in unfold check_leave in dry_run_by-IsHarmless o n s
storage_prune-IsHarmless o env n true s e =
    subst (IsHarmless (record { keep_latest = n; execute = true }) s)
      (sym (storage_prune-disabled o env n s e)) (tt, refl)
