-- ===== src/Reconciler/Compare/Masters.antt =====
-- Which rows the comparison changes, and how.
use directdnsonly.Base.{
  ◌+◌, String, ◌≡◌, refl, ◌∙◌, Bool, Option, none, some, List, [], ◌∷◌, if◌then◌else◌, ◌==◌,
  string_eq, option_eq, length, arith,
}
use directdnsonly.Database.{Domain, row, or_row, IsUnique}
use directdnsonly.Queue.{Queues}
use directdnsonly.Worker.State.{Item}
use directdnsonly.Reconciler.Poll.{DomainMap, master_of}
use directdnsonly.Reconciler.Compare.{
  Verdict, keep_row, backfill, migrate, orphan, verdict, Progress, act, compare_rows,
}

-- The row with the host that the poll reports, if it reports one.
abbrev pub corrected : Option String → Domain → Domain
corrected none r = r
corrected (some h) r = record r { hostname = some h }

-- The changed row, if the verdict changes it.
abbrev pub changed : Verdict → Domain → Option Domain
changed keep_row r = none
changed (backfill h) r = some (record r { hostname = some h })
changed (migrate h) r = some (record r { hostname = some h })
changed orphan r = none

module _ (known : List (Option String)) where
  -- A row that is not changed has the reported host already.
  pub changed-verdict :
      (actual : Option String) (r : Domain)
      → or_row (changed (verdict known actual r) r) (some r) ≡ some (corrected actual r)
  unfolding verdict
  changed-verdict none r = ground arith
  changed-verdict (some h) r = ground arith

module _ (Q : Queues Item) (dry_run : Bool) (known : List (Option String)) (all : DomainMap) where
  abbrev pub change_of : Option Domain → Option Domain
  change_of none = none
  change_of (some r) = changed (verdict known (master_of r.domain all) r) r

  row-act :
      (k : String) (r : Domain) (v : Verdict) (p : Progress Q)
      → row k (act Q dry_run r v p).dirty
        ≡ (if k == r.domain then or_row (changed v r) (row k p.dirty) else row k p.dirty)
  unfolding act
  row-act k r keep_row p = ground arith
  row-act k r (backfill h) p = ground arith
  row-act k r (migrate h) p = ground arith
  row-act k r orphan p = ground arith

  -- The changed rows, by name.
  pub row-compare_rows :
      (k : String) (rows : List Domain) (p : Progress Q)
      → IsUnique rows
      → row k (compare_rows Q dry_run known all rows p).dirty
        ≡ or_row (change_of (row k rows)) (row k p.dirty)
  unfolding compare_rows
  row-compare_rows k [] p u = refl
  row-compare_rows k (r ∷ rows) p u =
      let v = verdict known (master_of r.domain all) r in
      row-compare_rows k rows (act Q dry_run r v p) u.1 ∙ ground (arith, row-act k r v p, u.0)

  dirty-act :
      (r : Domain) (v : Verdict) (p : Progress Q)
      → length p.dirty ≡ p.migrated + p.backfilled
      → let q = act Q dry_run r v p in length q.dirty ≡ q.migrated + q.backfilled
  unfolding act
  dirty-act r keep_row p h = omega arith
  dirty-act r (backfill x) p h = omega arith
  dirty-act r (migrate x) p h = omega arith
  dirty-act r orphan p h = omega arith

  -- Every changed row is counted, so that a pass that counts none has changed none.
  pub dirty-compare_rows :
      (rows : List Domain) (p : Progress Q)
      → length p.dirty ≡ p.migrated + p.backfilled
      → let q = compare_rows Q dry_run known all rows p in
        length q.dirty ≡ q.migrated + q.backfilled
  unfolding compare_rows
  dirty-compare_rows [] p h = h
  dirty-compare_rows (r ∷ rows) p h =
      let v = verdict known (master_of r.domain all) r in
      dirty-compare_rows rows (act Q dry_run r v p) (dirty-act r v p h)
