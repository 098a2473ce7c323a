-- ===== src/Index/Torn.antt =====
-- What a line without its line feed, left by a crash in the middle of an append, does to the next.
use ao2_control_plane.Base.{
  ◌+◌, ◌≡◌, refl, true, false, [], ◌∷◌, ◌++◌, some, ok, all, leb, append_assoc, arith,
}
use ao2_control_plane.Disk.{File, Bytes, lookup}
use ao2_control_plane.Index.State.{IndexEntry, Storage, Codec, Prints, is_valid_sha256_hex}
use ao2_control_plane.Index.Load.{
  Loaded, nothing, line_kind, malformed, step, load_file, load_lines, lines_from,
}
use ao2_control_plane.Index.Lines.{
  ends_line, all-append, lines_from-clean, lines_from-append, load_lines-append,
}
use ao2_control_plane.Index.{
  ledger, ensure_loaded, append, append_checked, append_inner, is_current,
}
use ao2_control_plane.Index.Coherence.{fingerprint_calm, load_calm, append_inner_calm, loaded_state}

abbrev pub one_malformed : Loaded → Loaded
one_malformed l = record l { malformed_lines_skipped = l.malformed_lines_skipped + 1 }

glued :
    (c : Codec) (bs fragment line : Bytes) (l : Loaded)
    → ends_line bs ≡ true
    → all (leb 32) fragment ≡ true
    → all (leb 32) line ≡ true
    → line_kind c (fragment ++ line) ≡ malformed
    → load_lines c (lines_from [] bs) nothing ≡ some l
    → load_lines c (lines_from [] (((bs ++ fragment) ++ line) ++ 10 ∷ [])) nothing
      ≡ some (one_malformed l)
unfolding load_lines step
glued c bs fragment line l finished clean clean' bad loads =
    rw
      (
        append_assoc bs fragment line,
        append_assoc bs (fragment ++ line) (10 ∷ []),
        lines_from-append bs ((fragment ++ line) ++ 10 ∷ []) finished,
        lines_from-clean (fragment ++ line) [] []
            (ground (arith, all-append (leb 32) fragment line)) refl,
        load_lines-append c (lines_from [] bs) ((fragment ++ line) ∷ lines_from [] []) nothing,
        loads,
        bad,
      )
      (unfold lines_from in refl)

-- With a file system that answers and an index not loaded yet, on a ledger of whole lines that
-- load and a fragment without control bytes after them, an append of an entry with a valid digest
-- that prints as one line returns `Ok` and the entry is resident; if the fragment and that line
-- are no JSON together, the next load has the entries of the whole lines alone and counts one
-- malformed line more.
pub torn_append_lost :
    (c : Codec) (e : IndexEntry) (s : Storage) (f : File) (bs fragment : Bytes) (l l' : Loaded)
    → Prints c e
    → is_valid_sha256_hex e.sha256 ≡ true
    → s.host.faults ≡ []
    → s.index.loaded ≡ false
    → lookup ledger s.host.files ≡ some f
    → f.content ≡ bs ++ fragment
    → ends_line bs ≡ true
    → all (leb 32) fragment ≡ true
    → load_lines c (lines_from [] bs) nothing ≡ some l
    → load_file c (some f) ≡ some l'
    → line_kind c (fragment ++ c.print e) ≡ malformed
    → ((append c e s).0 ≡ ok tt)
      × ((append c e s).1.index.entries ≡ l'.entries ++ e ∷ [])
      × (load_file c (lookup ledger (append c e s).1.host.files) ≡ some (one_malformed l))
unfolding append ensure_loaded append_checked is_current load_file
torn_append_lost c e s f bs fragment l l' laws valid calm cold there parts finished clean loads
      loads' bad =
    let s' : Storage = record s { index = loaded_state l' (lookup ledger s.host.files) } in
    let t = (append_inner c e s').1 in
    let r = append_inner_calm c e s' calm valid in
    rw
      (
        fingerprint_calm s.host calm,
        cold,
        load_calm c s.host l' calm (rw there loads'),
        r.0,
        fingerprint_calm t.host r.2,
        r.1,
      )
      (
        refl,
        refl,
        rw (r.3, there, parts)
            (glued c bs fragment (c.print e) l finished clean laws.no_control bad loads),
      )
