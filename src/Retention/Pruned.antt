-- ===== src/Retention/Pruned.antt =====
-- What the index has after a pruning that was well.
use ao2_control_plane.Base.{ℕ, Option, Exec, modify, ◌≡◌, List, ok}
use ao2_control_plane.Bundle.Kind.{kind_eq}
use ao2_control_plane.Index.{forgotten, stamped}
use ao2_control_plane.Index.State.{IndexEntry, IndexStoreError, Storage}
use ao2_control_plane.Retention.{index}

abbrev Has : List IndexEntry → Storage → Type 0
Has entries s = s.index.entries ≡ entries

module _ {E A : Type 0} where
  -- A method that leaves those entries if it is well.
  abbrev Leaves : List IndexEntry → A → Exec Storage E A → Type 0
  Leaves entries b m = (s : Storage) → (m s).0 ≡ ok b → Has entries (m s).1

-- The end of a rewriting.
abbrev last : ℕ × Option ℕ → Exec Storage IndexStoreError (Unit {0})
last fingerprint = modify (λ s. record s { index = forgotten (stamped fingerprint s.index) })
