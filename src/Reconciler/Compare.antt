-- ===== src/Reconciler/Compare.antt =====
-- directdnsonly/app/reconciler.py: the rows of the table against the poll.
pub mod Orphans
pub mod Masters
use directdnsonly.Base.{
  ℕ, ◌+◌, ◌≤◌, String, Bool, true, false, not, ◌&&◌, Option, none, some, List, [], ◌∷◌, map,
  if◌then◌else◌, ◌==◌, string_eq, option_eq, truthy?, contains,
}
use directdnsonly.Database.{Domain}
use directdnsonly.Queue.{Queues}
use directdnsonly.Worker.State.{Item}
use directdnsonly.Reconciler.Poll.{Server, DomainMap, master_of}

-- What the pass makes of a row.
pub data Verdict : Type 0 where
  keep_row : Verdict
  backfill : String → Verdict
  migrate : String → Verdict
  orphan : Verdict

abbrev pub known_servers : List Server → List (Option String)
known_servers = map (λ s. s.hostname)

-- `actual_master` is the server of the poll that lists the row's domain.
unfoldable pub verdict : List (Option String) → Option String → Domain → Verdict
verdict known none r = if contains known r.hostname then orphan else keep_row
verdict known (some actual) r =
    if truthy? r.hostname
    then (if r.hostname == some actual then keep_row else migrate actual)
    else backfill actual

abbrev or_blank : Option String → String
or_blank none = ""
or_blank (some s) = s

-- The delete item of an orphan.
unfoldable pub orphan_item : Domain → Item
orphan_item r = record {
  domain = some r.domain;
  zone_file = none;
  hostname = r.hostname;
  username = some (or_blank r.username);
  source = some "reconciler";
  failed_backends = none;
  retry_count = none;
  retry_after = none;
}

module _ (Q : Queues Item) where
  -- The loop's variables; `dirty` holds the rows that the session has changed.
  pub record Progress : Type 0 where
    pub delete_queue : Q.Queue
    pub dirty : List Domain
    pub total_queued : ℕ
    pub migrated : ℕ
    pub backfilled : ℕ

  unfoldable pub act : Bool → Domain → Verdict → Progress → Progress
  unfolding orphan_item
  act dry_run r keep_row p = p
  act dry_run r (backfill h) p = record p {
    dirty = record r { hostname = some h } ∷ p.dirty;
    backfilled = p.backfilled + 1;
  }
  act dry_run r (migrate h) p = record p {
    dirty = record r { hostname = some h } ∷ p.dirty;
    migrated = p.migrated + 1;
  }
  act dry_run r orphan p = record p {
    delete_queue = if dry_run then p.delete_queue else Q.put (orphan_item r) p.delete_queue;
    total_queued = p.total_queued + 1;
  }

  unfoldable pub compare_rows :
      Bool → List (Option String) → DomainMap → List Domain → Progress → Progress
  compare_rows dry_run known all [] p = p
  compare_rows dry_run known all (r ∷ rows) p =
      compare_rows dry_run known all rows
        (act dry_run r (verdict known (master_of r.domain all) r) p)
