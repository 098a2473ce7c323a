-- ===== src/Bundle/Atomic.antt =====
-- What `write` publishes, whatever calls of the file system fail.
use ao2_control_plane.Base.{
  ℕ, ◌≡◌, ◌≢◌, ap, String, ◌&&◌, [], some, arith, ◌==◌, if◌then◌else◌, is_ok, refl, false, ◌⊎◌, inl,
  inr, take, Bool-cases,
}
use mathlib.Core.Path.{subst}
use ao2_control_plane.Disk.{
  Host, File, FilePath, Bytes, path_eq, lookup, create, write_all, sync_data, create_dir_all,
}
use ao2_control_plane.Disk.Laws.{
  create-lookup, now-create, write_all-Leaves, IsLeft, reports-create, reports-create_dir_all,
  write_all-lookup_ne, rename-lookup, remove_file-lookup, files-sync_data, files-create_dir_all,
  now-create_dir_all,
}
use ao2_control_plane.Bundle.Kind.{BundleKind}
use ao2_control_plane.Bundle.{path, tmp_path, write_tmp_then_rename, write, fetch_add, publish}

module _ (tmp target : FilePath) (bytes : Bytes) (h : Host) where
  abbrev h₁ : Host
  h₁ = (create tmp h).1

  abbrev h₂ : Host
  h₂ = (write_all tmp bytes h₁).1

  abbrev h₃ : Host
  h₃ = (sync_data h₂).1

  write_tmp_then_rename-lookup :
      (left : Bytes) × IsLeft bytes h left
      × ((q : FilePath)
          → tmp ≢ q
          → lookup q (write_tmp_then_rename tmp target bytes h).1.files ≡ (
              if is_ok (write_tmp_then_rename tmp target bytes h).0 && target == q
              then some (record { content = left; modified = h.now })
              else lookup q h.files))
  unfolding write_tmp_then_rename
  write_tmp_then_rename-lookup = elim (Bool-cases (is_ok (create tmp h).0)) [
    | inl made ↦
        let empty : File = record { content = []; modified = h.now } in
        let (left, is_left, after) =
          write_all-Leaves tmp bytes h₁ empty (ground (arith, create-lookup tmp h tmp)) in
        (
          left,
          subst (λ r. (left ≡ bytes) ⊎ ((n : ℕ) × (r bytes n ≡ false) × (left ≡ take n bytes)))
              (reports-create tmp h) is_left,
          λ q e. ground (
            arith,
            create-lookup tmp h q,
            now-create tmp h,
            after,
            write_all-lookup_ne tmp bytes h₁ q e,
            ap (lookup q) (files-sync_data h₂),
            ap (lookup tmp) (files-sync_data h₂),
            rename-lookup tmp target h₃ q (record { content = left; modified = h.now }),
          ),
        )
    | inr missed ↦ (bytes, inl refl, λ q e. ground (arith, create-lookup tmp h q))
  ]

tmp_path-ne-path :
    (kind other : BundleKind) (sha256 sha : String) (pid unique : ℕ)
    → tmp_path kind sha256 pid unique ≢ path other sha
unfolding tmp_path path
tmp_path-ne-path kind other sha256 sha pid unique e = cc (ap (λ (p : FilePath). p.name) e)

module _ (kind : BundleKind) (sha256 : String) (bytes : Bytes) (h : Host) where
  abbrev tmp : FilePath
  tmp = tmp_path kind sha256 h.pid h.write_counter

  abbrev written : Host
  written = (write_tmp_then_rename tmp (path kind sha256) bytes (fetch_add h)).1

  publish-lookup :
      (left : Bytes) × IsLeft bytes h left
      × ((other : BundleKind) (sha : String)
          → lookup (path other sha) (publish kind sha256 bytes h).1.files ≡ (
              if is_ok (publish kind sha256 bytes h).0 && path kind sha256 == path other sha
              then some (record { content = left; modified = h.now })
              else lookup (path other sha) h.files))
  unfolding publish
  publish-lookup =
      let (left, is_left, after) =
        write_tmp_then_rename-lookup tmp (path kind sha256) bytes (fetch_add h) in
      (
        left,
        is_left,
        λ other sha. ground (
          arith,
          tmp_path-ne-path kind other sha256 sha h.pid h.write_counter,
          after (path other sha) (tmp_path-ne-path kind other sha256 sha h.pid h.write_counter),
          remove_file-lookup tmp written (path other sha),
        ),
      )

-- Under any failures of the file system, if `write` returns an error the bundle is what it was
-- before. If it returns `Ok` the bundle has the new bytes, or, if the write failed after `n` bytes and
-- `write_all` did not say so, the first `n` of them. No other bundle changes.
pub lookup-write :
    (kind : BundleKind) (sha256 : String) (bytes : Bytes) (h : Host)
    → (left : Bytes) × ((left ≡ bytes)
        ⊎ ((n : ℕ) × (h.reports bytes n ≡ false) × (left ≡ take n bytes)))
      × ((other : BundleKind) (sha : String)
          → lookup (path other sha) (write kind sha256 bytes h).1.files ≡ (
              if is_ok (write kind sha256 bytes h).0 && path kind sha256 == path other sha
              then some (record { content = left; modified = h.now })
              else lookup (path other sha) h.files))
unfolding write
lookup-write kind sha256 bytes h =
    let h₁ = (create_dir_all h).1 in
    let (left, is_left, after) = publish-lookup kind sha256 bytes h₁ in
    (
      left,
      subst (λ r. (left ≡ bytes) ⊎ ((n : ℕ) × (r bytes n ≡ false) × (left ≡ take n bytes)))
          (reports-create_dir_all h) is_left,
      λ other sha. ground (
        arith,
        ap (lookup (path other sha)) (files-create_dir_all h),
        now-create_dir_all h,
        after other sha,
      ),
    )
