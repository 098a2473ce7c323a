-- ===== src/Ingest/RoundTrip.antt =====
-- A memory export that is taken in is given out again.
use ao2_control_plane.Base.{
  ◌≡◌, refl, ap, ◌∙◌, String, [], none, some, Result, ok, err, Exec, ◌>>◌, continue, string_eq,
  arith,
}
use ao2_control_plane.Base.Text.{codes, string_eq_iff}
use ao2_control_plane.Disk.{File, Bytes, lookup, path_eq}
use ao2_control_plane.Bundle
use ao2_control_plane.Bundle.{path}
use ao2_control_plane.Bundle.Kind.{BundleKind, memory_export}
use ao2_control_plane.Bundle.Calm.{write_calm, write_calm-whole}
use ao2_control_plane.Index.State.{Storage}
use ao2_control_plane.Json.{Value}
use ao2_control_plane.Schema.Memory.{MemoryExport, parse_memory_export}
use ao2_control_plane.Schema.Responses.{new}
use ao2_control_plane.Server.AppError.{AppError}
use ao2_control_plane.Server.Caching.{
  Cached, validate_sha, format_etag, etag_matches, cacheable_json_response,
}
use ao2_control_plane.Ingest.{
  Outside, AppState, Clock, Method, admitted, digest_of, on_bundles, store_absent, index_entry,
  untampered, read_verified, require_bundle, unless_cached, get_stored,
}
use ao2_control_plane.Ingest.Memory.{accept, post_memory_export, get_memory_export}
use ao2_control_plane.Ingest.Keeps.{
  Grows, Grows-refl, Keeps, then-Keeps, lift-Keeps, index_entry-Keeps, exists_calm,
}

module _ (o : Outside) (kind : BundleKind) (sha : String) where
  require_bundle_calm :
      (s : Storage) (f : File)
      → s.host.faults ≡ []
      → lookup (path kind sha) s.host.files ≡ some f
      → require_bundle o kind sha s ≡ (ok tt, s)
  unfolding require_bundle
  require_bundle_calm s f calm there = ground (arith, exists_calm kind sha s.host calm)

  read_calm :
      (s : Storage) (f : File)
      → s.host.faults ≡ []
      → lookup (path kind sha) s.host.files ≡ some f
      → on_bundles o (Bundle.read kind sha) s ≡ (ok f.content, s)
  unfolding Bundle.read
  read_calm s f calm there = ground arith

  untampered_calm :
      (bytes : Bytes) (v : Value)
      → o.from_slice bytes ≡ ok v
      → digest_of o v ≡ sha
      → untampered o sha bytes (o.from_slice bytes)
        ≡ ok (cacheable_json_response (format_etag (codes sha)) bytes)
  untampered_calm bytes v parses digest =
      rw (parses, (string_eq_iff (digest_of o v) sha).1 digest) refl

  abbrev checked_bytes : Bytes → Method Cached
  checked_bytes bytes t = (untampered o sha bytes (o.from_slice bytes), t)

  abbrev given : Method Cached
  given = unless_cached o sha none (read_verified o kind sha)

  -- A bundle that is there and has its digest is given out as it is.
  get_stored_calm :
      (s : Storage) (f : File) (v : Value)
      → s.host.faults ≡ []
      → lookup (path kind sha) s.host.files ≡ some f
      → o.from_slice f.content ≡ ok v
      → digest_of o v ≡ sha
      → validate_sha (codes sha) ≡ ok tt
      → get_stored o kind sha none s
        ≡ (ok (cacheable_json_response (format_etag (codes sha)) f.content), s)
  unfolding get_stored etag_matches read_verified
  get_stored_calm s f v calm there parses digest valid =
      ap
        (λ (r : Result AppError (Unit {0})). continue r (λ u. require_bundle o kind sha >> given) s)
        valid
      ∙ ap (λ (x : Result AppError (Unit {0}) × Storage). continue x.0 (λ u. given) x.1)
          (require_bundle_calm s f calm there)
      ∙ ap (λ (x : Result AppError Bytes × Storage). continue x.0 checked_bytes x.1)
          (read_calm s f calm there)
      ∙ ap (λ (r : Result AppError Cached). (r, s)) (untampered_calm f.content v parses digest)

  store_absent_calm :
      (raw : Bytes) (s : Storage)
      → s.host.faults ≡ []
      → lookup (path kind sha) s.host.files ≡ none
      → ((store_absent o kind sha raw s).0 ≡ ok tt)
        × ((store_absent o kind sha raw s).1.host.faults ≡ [])
        × (lookup (path kind sha) (store_absent o kind sha raw s).1.host.files
            ≡ some (record { content = raw; modified = s.host.now }))
  unfolding store_absent
  store_absent_calm raw s calm missing = ground (
    arith,
    exists_calm kind sha s.host calm,
    write_calm kind sha raw s.host calm,
    write_calm-whole kind sha raw s.host calm,
  )

module _ {E A B : Type 0} where
  -- What is done after a step, if anything, keeps what the step left.
  Grows-continue :
      (r : Result E A) (n : Exec Storage E B) (t : Storage)
      → t.host.faults ≡ []
      → Keeps n
      → Grows t (continue r (λ a. n) t).1
  Grows-continue (ok a) n t calm keeps = keeps t calm
  Grows-continue (err e) n t calm keeps = Grows-refl t calm

module _ (o : Outside) (state : AppState) (clock : Clock) (body : Bytes) (s : Storage) where
  accept-lookup :
      (export : MemoryExport) (sha : String)
      → s.host.faults ≡ []
      → lookup (path memory_export sha) s.host.files ≡ none
      → let t = (accept o clock body export sha s).1 in
        (t.host.faults ≡ [])
        × (lookup (path memory_export sha) t.host.files
            ≡ some (record { content = body; modified = s.host.now }))
  accept-lookup export sha calm missing =
      let (done, answers, there) = store_absent_calm o memory_export sha body s calm missing in
      let rest =
        then-Keeps (index_entry o _) (λ t. (ok (new clock.stored sha export.schema_version), t))
          (index_entry-Keeps o _)
          (lift-Keeps {E = AppError} (ok (new clock.stored sha export.schema_version))) in
      let more =
        Grows-continue (store_absent o memory_export sha body s).0 _
          (store_absent o memory_export sha body s).1 answers rest in
      (more.calm, more.kept memory_export sha _ there)

  -- On a file system that answers, a memory export that is admitted, parses and is new is given out,
  -- after its post, under its digest, with the bytes that were posted, if the digest is 64 hexadecimal
  -- digits; also when its entry could not be appended to the index.
  pub get_memory_export-post :
      (export : MemoryExport) (value : Value)
      → s.host.faults ≡ []
      → admitted o state body ≡ ok tt
      → parse_memory_export o.memory_export body ≡ ok export
      → o.from_slice body ≡ ok value
      → validate_sha (codes (digest_of o value)) ≡ ok tt
      → lookup (path memory_export (digest_of o value)) s.host.files ≡ none
      → let sha = digest_of o value in
        (get_memory_export o sha none (post_memory_export o state clock body s).1).0
        ≡ ok (cacheable_json_response (format_etag (codes sha)) body)
  unfolding post_memory_export get_memory_export
  get_memory_export-post export value calm admits parses reads valid missing =
      let sha = digest_of o value in
      let (answers, there) = accept-lookup export sha calm missing in
      let t = (accept o clock body export sha s).1 in
      rw (admits, parses, reads)
        (ap (λ x. x.0)
          (get_stored_calm o memory_export sha t _ value answers there reads refl valid))
