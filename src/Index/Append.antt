-- ===== src/Index/Append.antt =====
-- Appending to the ledger: what is resident afterwards is what a restart would read.
use mathlib.Core.Option.{some-injective}
use mathlib.Core.Path.{subst}
use ao2_control_plane.Base.{
  ℕ, ◌≡◌, refl, sym, ap, ◌∙◌, true, not, ◌||◌, String, List, [], ◌∷◌, ◌++◌, Option, none, some, ok,
  contains, string_eq, nat_eq, option_eq, ◌==◌, if◌then◌else◌, arith, append_assoc, Bool-cases, inl,
  inr,
}
use ao2_control_plane.Disk.{Host, File, lookup}
use ao2_control_plane.Index.State.{IndexEntry, Storage, Codec, Prints, is_valid_sha256_hex}
use ao2_control_plane.Index.Load.{Loaded, then_load, load_file}
use ao2_control_plane.Index.Lines.{ends_line, with_entry, load_lines-print, ends_line-append}
use ao2_control_plane.Index.{
  ledger, ensure_loaded, insert_digest, append_inner, append_checked, append_if_absent, remember,
  stamped,
}
use ao2_control_plane.Index.Coherence.{
  content_of, fingerprint_of, shas, Holds, IsCoherent, fingerprint_calm, ensure_loaded_calm,
  append_inner_calm, appended,
}

load_file-appended :
    (c : Codec) (e : IndexEntry) (f : Option File) (now : Option ℕ) (l : Loaded)
    → Prints c e
    → ends_line (content_of f) ≡ true
    → is_valid_sha256_hex e.sha256 ≡ true
    → load_file c f ≡ some l
    → load_file c (some (appended c e f now)) ≡ some (with_entry e l)
unfolding load_file ends_line
load_file-appended c e none now l laws finished valid p =
    load_lines-print c [] e laws refl valid ∙ ap (λ o. then_load o (λ m. some (with_entry e m))) p
load_file-appended c e (some f) now l laws finished valid p = rw (
  append_assoc f.content (c.print e) (10 ∷ []),
  load_lines-print c f.content e laws finished valid,
  p,
)

contains-append_one :
    (es : List IndexEntry) (e : IndexEntry) (sha : String)
    → contains (shas (es ++ e ∷ [])) sha ≡ (e.sha256 == sha || contains (shas es) sha)
contains-append_one [] e sha = refl
contains-append_one (x ∷ es) e sha = ground (arith, contains-append_one es e sha)

-- `s` and what is on disk and resident once the entry is appended to it.
pub record Appended (c : Codec) (e : IndexEntry) (l : Loaded) (t : Storage) : Type 0 where
  pub on_disk : load_file c (lookup ledger t.host.files) ≡ some (with_entry e l)
  pub resident : Holds (with_entry e l) t
  pub coherent : IsCoherent c t
  pub calm : t.host.faults ≡ []

remember-Holds :
    (e : IndexEntry) (l : Loaded) (s : Storage) (h : Host) (fingerprint : ℕ × Option ℕ)
    → Holds l s
    → Holds (with_entry e l) (record { host = h; index = stamped fingerprint (remember e s.index) })
unfolding insert_digest
remember-Holds e l s h fingerprint holds = record {
  seen = ap (with_entry e) holds.seen;
  known = λ sha.
      ground (arith, contains-append_one l.entries e sha, holds.known sha, holds.known e.sha256);
}

Holds-IsCoherent :
    (c : Codec) (s : Storage) (l : Loaded)
    → ends_line (content_of (lookup ledger s.host.files)) ≡ true
    → load_file c (lookup ledger s.host.files) ≡ some l
    → Holds l s
    → IsCoherent c s
Holds-IsCoherent c s l finished p holds = record {
  finished = finished;
  current = λ cur m q. subst (λ (n : Loaded). Holds n s) (some-injective l m (sym p ∙ q)) holds;
}

append_checked_calm :
    (c : Codec) (e : IndexEntry) (s : Storage) (l : Loaded)
    → Prints c e
    → ends_line (content_of (lookup ledger s.host.files)) ≡ true
    → s.host.faults ≡ []
    → load_file c (lookup ledger s.host.files) ≡ some l
    → is_valid_sha256_hex e.sha256 ≡ true
    → Holds l s
    → ((append_checked c e s).0 ≡ ok tt) × Appended c e l (append_checked c e s).1
unfolding append_checked
append_checked_calm c e s l laws finished calm p valid holds =
    let t = (append_inner c e s).1 in
    let r = append_inner_calm c e s calm valid in
    let f = lookup ledger s.host.files in
    let on_disk = load_file-appended c e f s.host.now l laws finished valid p in
    let fingerprint = fingerprint_of (lookup ledger t.host.files) in
    let after : Storage = record {
      host = t.host;
      index = stamped fingerprint (remember e s.index);
    } in
    let holds_after : Holds (with_entry e l) after =
      remember-Holds e l s t.host fingerprint holds in
    rw (r.0, fingerprint_calm t.host r.2, r.1)
      (
        refl,
        record {
          on_disk = rw r.3 on_disk;
          resident = holds_after;
          coherent =
              Holds-IsCoherent c after (with_entry e l)
                (rw (r.3, append_assoc (content_of f) (c.print e) (10 ∷ []))
                  (ends_line-append (content_of f) (c.print e)))
                (rw r.3 on_disk) holds_after;
          calm = r.2;
        },
      )

-- With a file system that answers, on a coherent storage whose ledger loads, `append_if_absent` of
-- an entry with a valid digest that prints as one line says whether the digest was new; the ledger
-- then loads with the entry at its end if it was, and as before if not, and the storage is
-- coherent and holds what such a load gives.
pub append_if_absent_calm :
    (c : Codec) (e : IndexEntry) (s : Storage) (l : Loaded)
    → Prints c e
    → IsCoherent c s
    → s.host.faults ≡ []
    → load_file c (lookup ledger s.host.files) ≡ some l
    → is_valid_sha256_hex e.sha256 ≡ true
    → let known = contains (shas l.entries) e.sha256 in
      let l' = if known then l else with_entry e l in
      let (r, t) = append_if_absent c e s in
      (r ≡ ok (not known))
      × (load_file c (lookup ledger t.host.files) ≡ some l')
      × Holds l' t
      × IsCoherent c t
unfolding append_if_absent
append_if_absent_calm c e s l laws coh calm p valid =
    let s' = (ensure_loaded c s).1 in
    let (returned, there) = ensure_loaded_calm c s l coh calm p in
    let finished : ends_line (content_of (lookup ledger s'.host.files)) ≡ true =
      rw there.host coh.finished in
    let loads : load_file c (lookup ledger s'.host.files) ≡ some l = rw there.host p in
    let answers : s'.host.faults ≡ [] = rw there.host calm in
    elim (Bool-cases (contains (shas l.entries) e.sha256)) [
      | inl old ↦
          rw (returned, there.holds.known e.sha256, old)
            (refl, loads, there.holds, Holds-IsCoherent c s' l finished loads there.holds)
      | inr new ↦
          let (done, a) =
            append_checked_calm c e s' l laws finished answers loads valid there.holds in
          rw (returned, there.holds.known e.sha256, new, done)
            (refl, a.on_disk, a.resident, a.coherent)
    ]
