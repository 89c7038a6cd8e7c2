-- ===== src/Worker/Save/Failure.antt =====
-- What the save worker does with an item that some target does not take.
use directdnsonly.Base.{
  ℕ, ◌+◌, ◌≤◌, ◌<◌, String, ◌≡◌, refl, ◌∙◌, Bool, true, false, some, List, [], ◌∷◌, ◌++◌, arith,
  string_eq, option_eq, contains,
}
use directdnsonly.Base.Exec.{Result, ok, pure, ◌>>=◌, ◌>>◌}
use directdnsonly.Worker.State.{Item, Host, IsHost, Manager, max_retries}
use directdnsonly.Worker.Backends.{targets}
use directdnsonly.Worker.Backends.Outcomes.{reports_failure}
use directdnsonly.Worker.Retry.{or_zero, schedule_retry, retry_item}
use directdnsonly.Worker.Retry.Schedule.{
  schedule_retry_again, schedule_retry_dead, schedule_retry_returns,
}
use directdnsonly.Worker.Save.{
  index_zone, process_backends, conclude, write_to, process_item, task_done,
}
use directdnsonly.Worker.Save.Outcome.{process_item_run}
use directdnsonly.Worker.Retry.Schedule.{backoff_bounds}
use directdnsonly.Worker.Save.Writes.{write_call, contains-process_backends}

-- The second item is for the same zone as the first, counts one more retry, is due at a time and
-- names the backends that failed.
pub record IsRetryOf (item : Item) (failed : List String) (due : ℕ) (queued : Item) : Type 0 where
  pub domain : queued.domain ≡ item.domain
  pub zone_file : queued.zone_file ≡ item.zone_file
  pub hostname : queued.hostname ≡ item.hostname
  pub username : queued.username ≡ item.username
  pub source : queued.source ≡ some "retry"
  pub failed_backends : queued.failed_backends ≡ some failed
  pub retry_count : queued.retry_count ≡ some (or_zero item.retry_count + 1)
  pub retry_after : queued.retry_after ≡ some due

retry_item-IsRetryOf :
    (item : Item) (failed : List String) (due : ℕ)
    → IsRetryOf item failed due (retry_item item failed (or_zero item.retry_count + 1) due)
unfolding retry_item
retry_item-IsRetryOf item failed due = record {
  domain = refl;
  zone_file = refl;
  hostname = refl;
  username = refl;
  source = refl;
  failed_backends = refl;
  retry_count = refl;
  retry_after = refl;
}

-- How a run ends that schedules a retry, from the state behind the index step: not processed, with
-- the table and the dead letters as they were, and one more item on the retry queue. That item
-- counts one more retry, is due 30 s to 30 min later, and names exactly the targets that failed.
abbrev pub Retried :
    (H : Host)
    → Item
    → String
    → String
    → Manager H
    → List (String × H.Instance)
    → Result Bool × Manager H
    → Type 0
Retried H item d z m targets (r, m') =
    (r ≡ ok false)
    × (m'.table ≡ m.table)
    × (m'.dead_letter_count ≡ m.dead_letter_count)
    × (failed : List String) × (delay : ℕ) × (queued : Item) × (H.queues.items m'.retry_queue
        ≡ H.queues.items m.retry_queue ++ (queued ∷ []))
    × IsRetryOf item failed (H.time m.reads + delay) queued
    × (30 ≤ delay)
    × (delay ≤ 1800)
    × ((k : String) → contains failed k ≡ reports_failure (write_call H d z m.table) k targets)

-- How a run ends that gives an item up: not processed, one more dead letter, nothing queued.
abbrev pub Dropped : (H : Host) → Manager H → Result Bool × Manager H → Type 0
Dropped H m (r, m') =
    (r ≡ ok false)
    × (m'.table ≡ m.table)
    × (m'.dead_letter_count ≡ m.dead_letter_count + 1)
    × (m'.retry_queue ≡ m.retry_queue)

module _ (H : Host) (L : IsHost H) where
  open H use {database, queues}

  -- What a run leaves when some target does not take the zone: the item counts as failed, and is
  -- handed to the retry.
  write_to_failure :
      (item : Item) (m : Manager H) (d z n : String) (b : String × H.Instance)
      (bs : List (String × H.Instance))
      → reports_failure (write_call H d z m.table) n (b ∷ bs) ≡ true
      → let (failed, m1) = process_backends H (b ∷ bs) d z m in
        let m2 = (schedule_retry H item failed m1).1 in
        write_to H item d z (b ∷ bs) m
        ≡ (ok false, record m2 { save_queue = queues.task_done m2.save_queue })
  unfolding conclude
  write_to_failure item m d z n b bs h =
      let (failed, m1) = process_backends H (b ∷ bs) d z m in
      ending failed (contains-process_backends H L (b ∷ bs) d z m n ∙ h) m1
    where
      ending :
          (xs : List String)
          → contains xs n ≡ true
          → (m1 : Manager H)
          → let m2 = (schedule_retry H item xs m1).1 in
            (conclude H item d z xs >>= λ processed. task_done H >> pure processed) m1
            ≡ (ok false, record m2 { save_queue = queues.task_done m2.save_queue })
      ending [] h m1 = cc
      ending (x ∷ xs) h m1 = ground (arith, schedule_retry_returns H L.queues item (x ∷ xs) m1)

  -- A write that some target does not take, with retries left: the item is not processed, the
  -- table and the dead letters stay, and one item joins the retry queue. It is for the same domain,
  -- zone, host and user, has the source retry, counts one more retry, is due 30 s to 30 min later, and
  -- names as its backends exactly the targets whose call failed.
  pub process_item-Retried :
      (item : Item) (m m1 : Manager H) (d z n : String) {b : String × H.Instance}
      {bs : List (String × H.Instance)}
      → index_zone H item m ≡ (ok true, m1)
      → item.domain ≡ some d
      → item.zone_file ≡ some z
      → targets item.failed_backends m1.backends ≡ b ∷ bs
      → reports_failure (write_call H d z m1.table) n (b ∷ bs) ≡ true
      → or_zero item.retry_count < max_retries
      → Retried H item d z m1 (b ∷ bs) (process_item H item m)
  unfolding process_backends
  process_item-Retried item m m1 d z n {b} {bs} indexed named filed aimed fails few =
      let (failed, m2) = process_backends H (b ∷ bs) d z m1 in
      let run =
        process_item_run H L item m m1 d z indexed named filed aimed
        ∙ write_to_failure item m1 d z n b bs fails in
      let (delay, e, again) = schedule_retry_again H L.queues item failed m2 few in
      let (delay', e', lo, hi) = backoff_bounds (or_zero item.retry_count + 1) in
      rw run (
        rw again (
          refl,
          refl,
          refl,
          failed,
          delay,
          retry_item item failed (or_zero item.retry_count + 1) (H.time m1.reads + delay),
          L.queues.items-put _ _,
          retry_item-IsRetryOf item failed (H.time m1.reads + delay),
          ground arith,
          ground arith,
          λ k. contains-process_backends H L (b ∷ bs) d z m1 k,
        ))

  -- With no retries left the item is dropped: one more dead letter, and nothing is queued.
  pub process_item-Dropped :
      (item : Item) (m m1 : Manager H) (d z n : String) {b : String × H.Instance}
      {bs : List (String × H.Instance)}
      → index_zone H item m ≡ (ok true, m1)
      → item.domain ≡ some d
      → item.zone_file ≡ some z
      → targets item.failed_backends m1.backends ≡ b ∷ bs
      → reports_failure (write_call H d z m1.table) n (b ∷ bs) ≡ true
      → max_retries ≤ or_zero item.retry_count
      → Dropped H m1 (process_item H item m)
  unfolding process_backends
  process_item-Dropped item m m1 d z n {b} {bs} indexed named filed aimed fails spent =
      let (failed, m2) = process_backends H (b ∷ bs) d z m1 in
      let run =
        process_item_run H L item m m1 d z indexed named filed aimed
        ∙ write_to_failure item m1 d z n b bs fails in
      rw run (rw (schedule_retry_dead H L.queues item failed m2 spent) (refl, refl, refl, refl))
