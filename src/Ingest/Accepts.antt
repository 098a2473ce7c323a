-- ===== src/Ingest/Accepts.antt =====
-- A memory export that is in order is accepted.
use ao2_control_plane.Base.{
  ℕ, ◌≡◌, ◌≢◌, refl, sym, ap, String, Bool, true, [], none, some, Result, ok, ◌>>◌, continue,
  contains, string_eq, Option-cases, inl, inr, if◌then◌else◌, length,
}
use mathlib.Core.Path.{subst}
use ao2_control_plane.Disk.{Host, FilePath, Bytes, lookup}
use ao2_control_plane.Bundle
use ao2_control_plane.Bundle.{path, tmp_path}
use ao2_control_plane.Bundle.Kind.{BundleKind, memory_export}
use ao2_control_plane.Bundle.Calm.{write_calm, write_calm-spares}
use ao2_control_plane.Index.{ledger}
use ao2_control_plane.Index.State.{IndexEntry, Storage, Codec, Prints, is_valid_sha256_hex}
use ao2_control_plane.Index.Load.{Loaded, load_file}
use ao2_control_plane.Index.Lines.{with_entry}
use ao2_control_plane.Index.Coherence.{shas, IsCoherent}
use ao2_control_plane.Index.Append.{append_if_absent_calm}
use ao2_control_plane.Json.{Value}
use ao2_control_plane.Schema.Memory.{MemoryExport, parse_memory_export}
use ao2_control_plane.Schema.Responses.{IngestReceipt, new}
use ao2_control_plane.Server.AppError.{AppError}
use ao2_control_plane.Ingest.{
  Outside, AppState, Clock, admitted, digest_of, store_unless, store_absent, index_entry,
}
use ao2_control_plane.Ingest.Memory.{post_memory_export}
use ao2_control_plane.Ingest.Keeps.{exists_calm}

path-ne-ledger : (kind : BundleKind) (sha : String) → path kind sha ≢ ledger
unfolding path
path-ne-ledger kind sha e = cc (ap (λ (p : FilePath). p.name) e)

tmp_path-ne-ledger :
    (kind : BundleKind) (sha : String) (pid unique : ℕ) → tmp_path kind sha pid unique ≢ ledger
unfolding tmp_path
tmp_path-ne-ledger kind sha pid unique e = cc (ap (λ (p : FilePath). p.name) e)

-- The ledger and the resident index decide on coherence.
IsCoherent-host :
    (c : Codec) (s : Storage) (h : Host)
    → lookup ledger h.files ≡ lookup ledger s.host.files
    → IsCoherent c s
    → IsCoherent c (record s { host = h })
IsCoherent-host c s h same coh = record {
  finished = rw same coh.finished;
  current = λ cur l e.
      let holds = coh.current (rw⁻¹ same cur) l (rw⁻¹ same e) in
      record { seen = holds.seen; known = holds.known };
}

-- The entry of an export that is posted.
abbrev pub entry_of : Clock → Bytes → MemoryExport → String → IndexEntry
entry_of clock body export sha = record {
  ingested_at = clock.ingested;
  schema = export.schema_version;
  provider = none;
  sha256 = sha;
  status = some "accepted";
  size_bytes = length body;
}

-- The host that a step left, if it did not fail.
pub record Stored (s : Storage) (r : Result AppError (Unit {0}) × Storage) : Type 0 where
  pub host : Host
  pub returned : r ≡ (ok tt, record s { host = host })
  pub calm : host.faults ≡ []
  pub spared : lookup ledger host.files ≡ lookup ledger s.host.files

module _ (o : Outside) where
  store_absent-Stored :
      (kind : BundleKind) (sha : String) (raw : Bytes) (s : Storage)
      → s.host.faults ≡ []
      → Stored s (store_absent o kind sha raw s)
  unfolding store_absent
  store_absent-Stored kind sha raw s calm =
      subst (λ (x : Bool × Host). Stored s (store_unless o kind sha raw s x))
        (sym (exists_calm kind sha s.host calm))
        (elim (Option-cases (lookup (path kind sha) s.host.files)) [
          | inl missing ↦
              let written = write_calm kind sha raw s.host calm in
              rw missing (record {
                host = (Bundle.write kind sha raw s.host).1;
                returned = rw (written.0) refl;
                calm = written.1;
                spared =
                    write_calm-spares kind sha raw s.host ledger calm
                      (tmp_path-ne-ledger kind sha s.host.pid s.host.write_counter)
                      (path-ne-ledger kind sha);
              })
          | inr (f, there) ↦
              rw there (record { host = s.host; returned = refl; calm = calm; spared = refl })
        ])

  -- What an accepted entry leaves.
  pub record Accepted (e : IndexEntry) (l : Loaded) (receipt : IngestReceipt)
      (r : Result AppError IngestReceipt × Storage) : Type 0 where
    pub returned : r.0 ≡ ok receipt
    pub on_disk :
        load_file o.codec (lookup ledger r.1.host.files)
        ≡ some (if contains (shas l.entries) e.sha256 then l else with_entry e l)
    pub coherent : IsCoherent o.codec r.1

  index_entry-Accepted :
      (e : IndexEntry) (receipt : IngestReceipt) (l : Loaded) (s : Storage)
      → Prints o.codec e
      → IsCoherent o.codec s
      → s.host.faults ≡ []
      → load_file o.codec (lookup ledger s.host.files) ≡ some l
      → is_valid_sha256_hex e.sha256 ≡ true
      → Accepted e l receipt ((index_entry o e >> λ t. (ok receipt, t)) s)
  unfolding index_entry
  index_entry-Accepted e receipt l s laws coh calm loads valid =
      let (returned, on_disk, holds, coherent) =
        append_if_absent_calm o.codec e s l laws coh calm loads valid in
      rw returned (record { returned = refl; on_disk = on_disk; coherent = coherent })

  stored_and_indexed-Accepted :
      (kind : BundleKind) (sha : String) (raw : Bytes) (e : IndexEntry) (receipt : IngestReceipt)
      (l : Loaded) (s : Storage)
      → Prints o.codec e
      → IsCoherent o.codec s
      → s.host.faults ≡ []
      → load_file o.codec (lookup ledger s.host.files) ≡ some l
      → is_valid_sha256_hex e.sha256 ≡ true
      → Accepted e l receipt
          ((store_absent o kind sha raw >> (index_entry o e >> λ t. (ok receipt, t))) s)
  stored_and_indexed-Accepted kind sha raw e receipt l s laws coh calm loads valid =
      let stored = store_absent-Stored kind sha raw s calm in
      subst
        (λ (x : Result AppError (Unit {0}) × Storage).
          Accepted e l receipt (continue x.0 (λ u. index_entry o e >> λ t. (ok receipt, t)) x.1))
        (sym stored.returned)
        (index_entry-Accepted e receipt l (record s { host = stored.host }) laws
          (IsCoherent-host o.codec s stored.host stored.spared coh) stored.calm
          (rw stored.spared loads) valid)

  -- On a file system that answers and a storage whose resident index is coherent with a ledger that
  -- loads, the post of a body that is admitted and parses, with a digest of 64 hexadecimal digits and
  -- an entry that prints as one line, is answered by a receipt for that digest; the ledger then loads
  -- with the entry at its end if the digest is new there, as before if not, and the storage is coherent
  -- again.
  pub post_memory_export-Accepted :
      (state : AppState) (clock : Clock) (body : Bytes) (export : MemoryExport) (value : Value)
      (l : Loaded) (s : Storage)
      → admitted o state body ≡ ok tt
      → parse_memory_export o.memory_export body ≡ ok export
      → o.from_slice body ≡ ok value
      → is_valid_sha256_hex (digest_of o value) ≡ true
      → Prints o.codec (entry_of clock body export (digest_of o value))
      → s.host.faults ≡ []
      → load_file o.codec (lookup ledger s.host.files) ≡ some l
      → IsCoherent o.codec s
      → Accepted
          (entry_of clock body export (digest_of o value))
          l
          (new clock.stored (digest_of o value) export.schema_version)
          (post_memory_export o state clock body s)
  unfolding post_memory_export
  post_memory_export-Accepted state clock body export value l s admits parses reads valid laws calm
        loads coh =
      rw (admits, parses, reads)
        (stored_and_indexed-Accepted memory_export (digest_of o value) body
          (entry_of clock body export (digest_of o value))
          (new clock.stored (digest_of o value) export.schema_version) l s laws coh calm loads
          valid)
