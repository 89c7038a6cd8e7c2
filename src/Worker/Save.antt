-- ===== src/Worker/Save.antt =====
-- directdnsonly/worker.py: the save queue worker.
pub mod Writes
pub mod Outcome
pub mod Failure
pub mod Batch
pub mod Order
pub mod Published
use directdnsonly.Base.{
  ℕ, zero, suc, ◌+◌, String, Bool, true, false, ◌||◌, Option, none, some, List, [], ◌∷◌, map, ltb,
  if◌then◌else◌, ◌==◌, string_eq, option_eq, length,
}
use directdnsonly.Base.Exec.{Exec, Result, ok, pure, ◌>>=◌, ◌>>◌}
use directdnsonly.Database.{Domain}
use directdnsonly.Index.{register}
use directdnsonly.Worker.State.{Item, Host, Manager, on_table}
use directdnsonly.Worker.Backends.{process_single_backend, on_each, targets, put_back, failed_set}
use directdnsonly.Worker.Retry.{schedule_retry}

abbrev pub or_unknown : Option String → String
or_unknown none = "unknown"
or_unknown (some domain) = domain

-- `item.get("source") in ("retry", "reconciler_heal")`
unfoldable pub is_retry : Item → Bool
is_retry item = item.source == some "retry" || item.source == some "reconciler_heal"

module _ (H : Host) where
  open H use {database, queues, backend, from_text, utcnow, as_completed}

  -- The first write to the index of an item that does not come from the manager itself.
  unfoldable pub index_zone : Item → Exec (Manager H) Bool
  unfolding is_retry
  index_zone item m =
      if is_retry item
      then (ok true, m)
      else on_table (register database (or_unknown item.domain) item.hostname item.username) m

  -- `_store_zone_data`: an exception is logged and dropped.
  unfoldable pub store_zone_data : String → String → Manager H → Manager H
  store_zone_data domain zone_file m = elim (database.find domain m.table) [
    | none ↦ m
    | some r ↦
        let stored : Domain = record r {
          zone_data = some zone_file;
          zone_updated_at = some (utcnow m.reads);
        } in
        elim (database.save (stored ∷ []) m.table) [
          | none ↦ record m { reads = m.reads + 1 }
          | some t ↦ record m { table = t; reads = m.reads + 1 }
        ]
  ]

  abbrev pub domain_names : database.Table → List String
  domain_names t = map (λ d. d.domain) (database.all t)

  abbrev pub task_done : Exec (Manager H) (Unit {0})
  task_done m = (ok tt, record m { save_queue = queues.task_done m.save_queue })

  -- The calls on the target backends: the names that failed, and the manager with the instances
  -- that the calls changed. More than one backend runs in threads.
  unfoldable pub process_backends :
      List (String × H.Instance) → String → String → Manager H → List String × Manager H
  process_backends backends domain zone_file m =
      let (results, after) =
        on_each (process_single_backend backend from_text (domain_names m.table) domain zone_file)
          backends in
      (
        failed_set (if ltb 1 (length backends) then as_completed results else results),
        record m { backends = put_back after m.backends },
      )

  -- What follows the calls: retry what failed, or keep the zone.
  unfoldable pub conclude : Item → String → String → List String → Exec (Manager H) Bool
  conclude item domain zone_file [] m = (ok true, store_zone_data domain zone_file m)
  conclude item domain zone_file (b ∷ bs) m = (do schedule_retry H item (b ∷ bs); pure false) m

  abbrev pub write_to : Item → String → String → List (String × H.Instance) → Exec (Manager H) Bool
  write_to item domain zone_file [] m = (task_done >> pure false) m
  write_to item domain zone_file (b ∷ bs) m =
      let (failed, m') = process_backends (b ∷ bs) domain zone_file m in
      (do processed ← conclude item domain zone_file failed; task_done; pure processed) m'

  -- An item without a domain or a zone file is invalid.
  abbrev pub write_item : Item → Option String → Option String → Exec (Manager H) Bool
  write_item item (some domain) (some zone_file) m =
      write_to item domain zone_file (targets item.failed_backends m.backends) m
  write_item item _ _ m = (task_done >> pure false) m

  -- The body of the `try`: whether the item counts as processed.
  unfoldable pub process_item : Item → Exec (Manager H) Bool
  process_item item = do index_zone item; write_item item item.domain item.zone_file

  -- The counters of a batch. An exception counts as a failure.
  abbrev pub count_processed : Result Bool → ℕ → ℕ
  count_processed (ok true) n = n + 1
  count_processed _ n = n

  abbrev pub count_failed : Result Bool → ℕ → ℕ
  count_failed (ok true) n = n
  count_failed _ n = n + 1

  -- A batch from its first item until the queue is empty: processed, failed, and the state.
  unfoldable pub batch : ℕ → Item → ℕ → ℕ → Manager H → Option (ℕ × ℕ × Manager H)
  batch zero item processed failed m = none
  batch (suc fuel) item processed failed m =
      let (r, m') = process_item item m in
      elim (queues.get_nowait m'.save_queue) [
        | none ↦ some (count_processed r processed, count_failed r failed, m')
        | some (next, q) ↦
            batch fuel next (count_processed r processed) (count_failed r failed)
              (record m' { save_queue = q })
      ]

  -- One round of `_process_save_queue`. The fuel is the size of the queue and one.
  unfoldable pub save_round : Manager H → Option (ℕ × ℕ × Manager H)
  save_round m = elim (queues.get_nowait m.save_queue) [
    | none ↦ some (0, 0, m)
    | some (item, q) ↦ batch (suc (queues.qsize q)) item 0 0 (record m { save_queue = q })
  ]
