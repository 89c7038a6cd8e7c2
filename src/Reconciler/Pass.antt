-- ===== src/Reconciler/Pass.antt =====
-- directdnsonly/app/reconciler.py: `_reconcile_all`. The times of the pass are left out.
pub mod Orphans
pub mod Masters
use directdnsonly.Base.{
  ℕ, zero, ◌+◌, ◌≤◌, String, Bool, true, false, ◌||◌, Option, none, some, List, [], ◌∷◌,
  if◌then◌else◌, ltb, length,
}
use directdnsonly.Base.Exec.{Exec, Result, ok, raised, other}
use directdnsonly.Database.{Domain}
use directdnsonly.Worker.State.{Item, Host, Manager}
use directdnsonly.Reconciler.Poll.{Server, poll_all, Polled}
use directdnsonly.Reconciler.Compare.{known_servers, Progress, compare_rows}
use directdnsonly.Reconciler.Heal.{heal_backends}

-- The counts of `_last_run`.
pub record LastRun : Type 0 where
  pub da_servers_polled : ℕ
  pub da_servers_unreachable : ℕ
  pub zones_in_da : ℕ
  pub zones_in_db : ℕ
  pub orphans_found : ℕ
  pub orphans_queued : ℕ
  pub hostnames_backfilled : ℕ
  pub hostnames_migrated : ℕ
  pub zones_healed : ℕ
  pub dry_run : Bool

module _ (H : Host) (list_domains : String → Result (Option (List String))) (servers : List Server)
    (dry_run : Bool) where
  open H use {database, queues}

  -- The loop over the rows, on the queue and the table of a manager.
  unfoldable pub progress : Manager H → Progress queues
  progress m =
      compare_rows queues dry_run (known_servers servers)
        (poll_all list_domains servers).all_da_domains (database.all m.table)
        (record {
          delete_queue = m.delete_queue;
          dirty = [];
          total_queued = 0;
          migrated = 0;
          backfilled = 0;
        })

  -- The commit, which is made if some row has changed. The items that were put stay put if it
  -- raises.
  unfoldable pub commit_rows : Progress queues → Manager H → Result Bool × Manager H
  commit_rows p m =
      let m' : Manager H = record m { delete_queue = p.delete_queue } in
      if ltb 0 p.migrated || ltb 0 p.backfilled
      then (elim (database.save p.dirty m.table) [
        | none ↦ (raised other, m')
        | some t ↦ (ok true, record m' { table = t })
      ])
      else (ok true, m')

  unfoldable pub reconcile_all : Exec (Manager H) LastRun
  reconcile_all m =
      let polled = poll_all list_domains servers in
      let p = progress m in
      let (r, m') = commit_rows p m in
      elim r [
        | raised e ↦ (raised e, m')
        | ok _ ↦
            let (zones_healed, m'') = heal_backends H dry_run m' in
            (
              ok (record {
                da_servers_polled = polled.da_servers_polled;
                da_servers_unreachable = polled.da_servers_unreachable;
                zones_in_da = length polled.all_da_domains;
                zones_in_db = length (database.all m.table);
                orphans_found = p.total_queued;
                orphans_queued = if dry_run then 0 else p.total_queued;
                hostnames_backfilled = p.backfilled;
                hostnames_migrated = p.migrated;
                zones_healed = zones_healed;
                dry_run = dry_run;
              }),
              m'',
            )
      ]
