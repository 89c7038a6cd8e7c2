-- ===== src/Reconciler/Pass/Masters.antt =====
-- The hosts of the rows after a pass.
use directdnsonly.Base.{
  ◌+◌, String, ◌≡◌, refl, ap, Bool, true, Option, none, some, List, [], ◌∷◌, string_eq, option_eq,
  arith, length, inl, inr, Option-cases,
}
use directdnsonly.Base.Exec.{Result, ok}
use directdnsonly.Database.{Domain, row, or_row}
use directdnsonly.Worker.State.{Host, IsHost, Manager}
use directdnsonly.Reconciler.Poll.{Server, poll_all, master_of}
use directdnsonly.Reconciler.Poll.Reporters.{last_reporter, master_of-poll_all}
use directdnsonly.Reconciler.Compare.{known_servers}
use directdnsonly.Reconciler.Compare.Masters.{
  corrected, change_of, changed-verdict, row-compare_rows, dirty-compare_rows,
}
use directdnsonly.Worker.Backends.Outcomes.{is_ok}
use directdnsonly.Reconciler.Heal.Items.{heal_backends_keeps}
use directdnsonly.Reconciler.Pass.{LastRun, progress, commit_rows, reconcile_all}

-- The row with the host of the last server that lists it, if one does.
abbrev pub corrected_row :
    (String → Result (Option (List String))) → List Server → Option Domain → Option Domain
corrected_row poll servers none = none
corrected_row poll servers (some r) = some (corrected (last_reporter poll r.domain servers) r)

row_of_empty : (k : String) (ds : List Domain) → length ds ≡ 0 → row k ds ≡ none
row_of_empty k [] h = refl
row_of_empty k (d ∷ ds) h = absurd (omega arith)

module _ (poll : String → Result (Option (List String))) (servers : List Server) (dry_run : Bool)
    (H : Host) (L : IsHost H) (m : Manager H) where
  open H use {database, queues}

  settled :
      (o : Option Domain)
      → or_row
          (or_row
            (change_of queues dry_run
              (known_servers servers)
              (poll_all poll servers).all_da_domains
              o)
            none)
          o
        ≡ corrected_row poll servers o
  settled none = refl
  settled (some r) =
      let d = r.domain in
      let actual = master_of d (poll_all poll servers).all_da_domains in
      ground (
        arith,
        changed-verdict (known_servers servers) actual r,
        ap (λ (a : Option String). corrected a r) (master_of-poll_all poll d servers),
      )

  row-progress :
      (k : String)
      → or_row (row k (progress H poll servers dry_run m).dirty) (database.find k m.table)
        ≡ corrected_row poll servers (database.find k m.table)
  unfolding progress
  row-progress k =
      let all = (poll_all poll servers).all_da_domains in
      let known = known_servers servers in
      rw (L.database.find-all k m.table) (
        rw
          (row-compare_rows queues dry_run known all k (database.all m.table) _
            (L.database.all-IsUnique m.table))
          (settled (row k (database.all m.table))))

  dirty_counted :
      let p = progress H poll servers dry_run m in length p.dirty ≡ p.migrated + p.backfilled
  unfolding progress
  dirty_counted =
      dirty-compare_rows queues dry_run (known_servers servers) _ (database.all m.table) _ refl

  find-commit_rows :
      let c = commit_rows H poll servers dry_run (progress H poll servers dry_run m) m in
      (k : String)
      → is_ok c.0 ≡ true
      → database.find k c.1.table ≡ corrected_row poll servers (database.find k m.table)
  unfolding commit_rows
  find-commit_rows k h =
      let p = progress H poll servers dry_run m in
      elim (Option-cases (database.save p.dirty m.table)) [
        | inl lost ↦ ground (arith, lost, row-progress k, dirty_counted, row_of_empty k p.dirty)
        | inr (t, saved) ↦ ground (
          arith,
          saved,
          row-progress k,
          dirty_counted,
          row_of_empty k p.dirty,
          L.database.find-save p.dirty m.table t saved k,
        )
      ]

  -- If the host keeps its assumptions, then after a pass that returns, dry or live, every row has the host of the last server of the
  -- configuration that lists its domain, or its old host if none does; nothing else of a row
  -- changes, and no row is added or removed.
  pub find-reconcile_all :
      (run : LastRun)
      → (reconcile_all H poll servers dry_run m).0 ≡ ok run
      → (k : String)
      → database.find k (reconcile_all H poll servers dry_run m).1.table
        ≡ corrected_row poll servers (database.find k m.table)
  unfolding reconcile_all
  find-reconcile_all run h k =
      let m' = (commit_rows H poll servers dry_run (progress H poll servers dry_run m) m).1 in
      ground (arith, find-commit_rows k, heal_backends_keeps H dry_run m')
