-- ===== src/Ingest/Genuine.antt =====
-- What is given out under a digest has that digest.
use ao2_control_plane.Base.{
  ℕ, ◌≡◌, ◌⊎◌, inl, inr, refl, String, Bool, true, false, List, [], Option, Result, ok, err,
  continue, string_eq, ◌==◌, Bool-cases, if◌then◌else◌,
}
use ao2_control_plane.Base.Text.{codes, string_eq_iff}
use ao2_control_plane.Disk.{Bytes}
use ao2_control_plane.Bundle
use ao2_control_plane.Bundle.Kind.{BundleKind, memory_export, control_plane_bundle}
use ao2_control_plane.Index.State.{Storage}
use ao2_control_plane.Json.{Value}
use ao2_control_plane.Server.AppError.{AppError}
use ao2_control_plane.Server.Caching.{Cached, validate_sha, format_etag, etag_matches}
use ao2_control_plane.Ingest.{
  Outside, Method, digest_of, on_bundles, untampered, read_verified, require_bundle, unless_cached,
  get_stored,
}
use ao2_control_plane.Ingest.Acceptance.{get_acceptance, acceptance_kind_for_sha}
use ao2_control_plane.Ingest.ControlPlane.{get_bundle}
use ao2_control_plane.Ingest.Memory.{get_memory_export}

module _ (o : Outside) (sha : String) where
  -- An answer is under the tag of the digest, and is a 304 without a body or a 200 whose body is the JSON
  -- of a value with that digest.
  abbrev pub IsGenuine : Result AppError Cached → Type 0
  IsGenuine (err e) = Unit
  IsGenuine (ok r) =
      (r.etag ≡ format_etag (codes sha))
      × (((r.status ≡ 304) × (r.body ≡ []))
          ⊎ ((r.status ≡ 200)
              × ((v : Value) × (o.from_slice r.body ≡ ok v) × (digest_of o v ≡ sha))))

  continue-IsGenuine :
      {A : Type 0} (r : Result AppError A) (f : A → Method Cached) (s : Storage)
      → ((a : A) (t : Storage) → IsGenuine (f a t).0)
      → IsGenuine (continue r f s).0
  continue-IsGenuine (ok a) f s each = each a s
  continue-IsGenuine (err e) f s each = tt

  choose-IsGenuine :
      (test : Bool) (r t : Result AppError Cached)
      → IsGenuine r
      → IsGenuine t
      → IsGenuine (if test then r else t)
  choose-IsGenuine true r t one two = one
  choose-IsGenuine false r t one two = two

  untampered-IsGenuine :
      (bytes : Bytes) (r : Result String Value)
      → o.from_slice bytes ≡ r
      → IsGenuine (untampered o sha bytes r)
  untampered-IsGenuine bytes (err e) read = tt
  untampered-IsGenuine bytes (ok v) read = elim (Bool-cases (digest_of o v == sha)) [
    | inl same ↦ rw same (refl, inr (refl, (v, read, (string_eq_iff (digest_of o v) sha).0 same)))
    | inr other ↦ rw other tt
  ]

  read_verified-IsGenuine :
      (kind : BundleKind) (s : Storage) → IsGenuine (read_verified o kind sha s).0
  unfolding read_verified
  read_verified-IsGenuine kind s =
      let (r, t) = on_bundles o (Bundle.read kind sha) s in
      continue-IsGenuine r (λ bytes u. (untampered o sha bytes (o.from_slice bytes), u)) t
        (λ bytes u. untampered-IsGenuine bytes (o.from_slice bytes) refl)

  unless_cached-IsGenuine :
      (header : Option (Option (List ℕ))) (kind : BundleKind) (s : Storage)
      → IsGenuine (unless_cached o sha header (read_verified o kind sha) s).0
  unless_cached-IsGenuine header kind s =
      elim (Bool-cases (etag_matches header (format_etag (codes sha)))) [
        | inl yes' ↦ rw yes' (refl, inl (refl, refl))
        | inr no' ↦ rw no' (read_verified-IsGenuine kind s)
      ]

  module _ (header : Option (Option (List ℕ))) where
    get_stored-IsGenuine :
        (kind : BundleKind) (s : Storage) → IsGenuine (get_stored o kind sha header s).0
    unfolding get_stored
    get_stored-IsGenuine kind s = continue-IsGenuine (validate_sha (codes sha)) _ s (λ u t.
        let (r, t') = require_bundle o kind sha t in
        continue-IsGenuine r _ t' (λ w t''. unless_cached-IsGenuine header kind t''))

    get_acceptance-IsGenuine : (s : Storage) → IsGenuine (get_acceptance o sha header s).0
    unfolding get_acceptance
    get_acceptance-IsGenuine s = continue-IsGenuine (validate_sha (codes sha)) _ s (λ u t.
        let (r, t') = acceptance_kind_for_sha o sha t in
        continue-IsGenuine r _ t' (λ kind t''. unless_cached-IsGenuine header kind t''))

-- Whatever the storage holds and whatever calls of the file system fail, an acceptance, a memory export
-- or a bundle is answered only by 304 without a body, or by 200 and bytes that are the JSON of a value
-- whose canonical form has the digest that was asked for, both under the tag of that digest. Anything
-- else is an error.
pub get-IsGenuine :
    (o : Outside) (sha : String) (header : Option (Option (List ℕ))) (s : Storage)
    → IsGenuine o sha (get_acceptance o sha header s).0
      × IsGenuine o sha (get_memory_export o sha header s).0
      × IsGenuine o sha (get_bundle o sha header s).0
unfolding get_memory_export get_bundle
get-IsGenuine o sha header s = (
  get_acceptance-IsGenuine o sha header s,
  get_stored-IsGenuine o sha header memory_export s,
  get_stored-IsGenuine o sha header control_plane_bundle s,
)
