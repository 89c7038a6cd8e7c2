-- ===== src/Worker/Save/Batch.antt =====
-- A batch ends, empties the save queue, and counts every item once.
use directdnsonly.Base.{
  ℕ, zero, suc, ◌+◌, ◌<◌, ◌≡◌, refl, ◌∙◌, ap, Bool, true, false, Option, none, some, List, [], ◌∷◌,
  arith, length, String,
}
use directdnsonly.Base.Exec.{Result, ok, raised}
use directdnsonly.Worker.State.{Item, Host, IsHost, Manager}
use directdnsonly.Worker.Backends.{targets}
use directdnsonly.Worker.Retry.Schedule.{schedule_retry_keeps}
use directdnsonly.Worker.Save.{
  index_zone, process_item, process_backends, conclude, batch, save_round, write_item, write_to,
  store_zone_data, count_processed, count_failed,
}

-- A round that ends with its queue empty, and that has counted `n` items.
abbrev pub Emptied : (H : Host) → Option (ℕ × ℕ × Manager H) → ℕ → Type 0
Emptied H round n =
    (p f : ℕ) × (m' : Manager H) × (round ≡ some (p, f, m'))
    × (H.queues.items m'.save_queue ≡ [])
    × (p + f ≡ n)

module _ (H : Host) (L : IsHost H) where
  open H use {queues}

  index_zone_queue :
      (item : Item) (m : Manager H) → (index_zone H item m).1.save_queue ≡ m.save_queue
  unfolding index_zone
  index_zone_queue item m = ground arith

  process_backends_queue :
      (bs : List (String × H.Instance)) (domain zone_file : String) (m : Manager H)
      → (process_backends H bs domain zone_file m).1.save_queue ≡ m.save_queue
  unfolding process_backends
  process_backends_queue bs domain zone_file m = refl

  conclude_queue :
      (item : Item) (domain zone_file : String) (failed : List String) (m : Manager H)
      → (conclude H item domain zone_file failed m).1.save_queue ≡ m.save_queue
  unfolding conclude store_zone_data
  conclude_queue item domain zone_file [] m = ground arith
  conclude_queue item domain zone_file (b ∷ bs) m =
      ground (arith, (schedule_retry_keeps H item (b ∷ bs) m))

  write_to_queue :
      (item : Item) (domain zone_file : String) (bs : List (String × H.Instance)) (m : Manager H)
      → queues.items (write_to H item domain zone_file bs m).1.save_queue
        ≡ queues.items m.save_queue
  write_to_queue item d z [] m = L.queues.items-task_done m.save_queue
  write_to_queue item d z (b ∷ bs) m =
      let (failed, m') = process_backends H (b ∷ bs) d z m in
      ground (
        arith,
        conclude_queue item d z failed m',
        process_backends_queue (b ∷ bs) d z m,
        L.queues.items-task_done (conclude H item d z failed m').1.save_queue,
      )

  write_item_queue :
      (item : Item) (domain zone_file : Option String) (m : Manager H)
      → queues.items (write_item H item domain zone_file m).1.save_queue ≡ queues.items m.save_queue
  write_item_queue item none zone_file m = L.queues.items-task_done m.save_queue
  write_item_queue item (some d) none m = L.queues.items-task_done m.save_queue
  write_item_queue item (some d) (some z) m =
      write_to_queue item d z (targets item.failed_backends m.backends) m

  pub process_item_queue :
      (item : Item) (m : Manager H)
      → queues.items (process_item H item m).1.save_queue ≡ queues.items m.save_queue
  unfolding process_item
  process_item_queue item m = ground (
    arith,
    index_zone_queue item m,
    write_item_queue item item.domain item.zone_file (index_zone H item m).1,
  )

  counted_once :
      (r : Result Bool) (p f : ℕ) → count_processed H r p + count_failed H r f ≡ p + f + 1
  counted_once (ok true) p f = omega arith
  counted_once (ok false) p f = omega arith
  counted_once (raised e) p f = omega arith

  batch_lem :
      (fuel : ℕ) (item : Item) (p f : ℕ) (m : Manager H) (xs : List Item)
      → queues.items m.save_queue ≡ xs
      → length xs < fuel
      → (p' f' : ℕ) × (m' : Manager H) × (batch H fuel item p f m ≡ some (p', f', m'))
        × (queues.items m'.save_queue ≡ [])
        × (p' + f' ≡ p + f + 1 + length xs)
  unfolding batch
  batch_lem zero item p f m xs e h = absurd (omega arith)
  batch_lem (suc fuel) item p f m [] e h =
      let (r, m') = process_item H item m in
      (
        count_processed H r p,
        count_failed H r f,
        m',
        rw (L.queues.get_empty m'.save_queue (process_item_queue item m ∙ e), batch),
        process_item_queue item m ∙ e,
        omega (arith, counted_once r p f),
      )
  batch_lem (suc fuel) item p f m (x ∷ xs) e h =
      let (r, m') = process_item H item m in
      let (q, got, left) = L.queues.get_oldest x xs m'.save_queue (process_item_queue item m ∙ e) in
      let (p', f', m'', done, none_left, total) =
        batch_lem fuel x (count_processed H r p) (count_failed H r f) (record m' { save_queue = q })
          xs left (omega arith) in
      (p', f', m'', rw (got, batch) done, none_left, omega (arith, total, counted_once r p f))

  -- A round of the save worker ends with the save queue empty, and has counted every item that
  -- waited at its start exactly once, as processed or as failed.
  pub save_round-total :
      (m : Manager H) → Emptied H (save_round H m) (length (queues.items m.save_queue))
  unfolding save_round
  save_round-total m = start (queues.items m.save_queue) refl
    where
      start :
          (xs : List Item) → queues.items m.save_queue ≡ xs → Emptied H (save_round H m) (length xs)
      start [] e = (0, 0, m, rw (L.queues.get_empty m.save_queue e, save_round), e, omega arith)
      start (x ∷ xs) e =
          let (q, got, left) = L.queues.get_oldest x xs m.save_queue e in
          let (p, f, m', done, none_left, total) =
            batch_lem (suc (queues.qsize q)) x 0 0 (record m { save_queue = q }) xs left
              (omega (arith, L.queues.qsize-items q, ap (length {0}) left)) in
          (p, f, m', rw (got, save_round) done, none_left, omega (arith, total))
