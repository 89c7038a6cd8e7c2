-- ===== src/Worker/Retry.antt =====
-- directdnsonly/worker.py: `_schedule_retry` and the retry drain worker.
pub mod Schedule
pub mod Drain
use Prim.Native.Nat.{min}
use directdnsonly.Base.{
  ℕ, zero, suc, ◌+◌, ◌-◌, String, Bool, not, Option, none, some, List, [], ◌∷◌, ◌++◌, leb, ltb,
  if◌then◌else◌, keep, length,
}
use directdnsonly.Base.Exec.{Exec, ok, raised, other}
use directdnsonly.Worker.State.{Item, max_retries, backoff_seconds, Host, Manager}

abbrev pub or_zero : Option ℕ → ℕ
or_zero none = 0
or_zero (some n) = n

-- `xs[i]`, which raises out of range
abbrev pub get_elem? {ℓ} : {A : Type ℓ} → List A → ℕ → Option A
get_elem? [] i = none
get_elem? (x ∷ xs) zero = some x
get_elem? (x ∷ xs) (suc i) = get_elem? xs i

-- `BACKOFF_SECONDS[min(retry_count - 1, len(BACKOFF_SECONDS) - 1)]`
unfoldable pub backoff : ℕ → Option ℕ
backoff retry_count = get_elem? backoff_seconds (min (retry_count - 1) (length backoff_seconds - 1))

-- The item that goes to the retry queue.
unfoldable pub retry_item : Item → List String → ℕ → ℕ → Item
retry_item item failed_backends retry_count retry_after = record item {
  failed_backends = some failed_backends;
  retry_count = some retry_count;
  retry_after = some retry_after;
  source = some "retry";
}

-- `item.get("retry_after", 0) <= now`
abbrev pub is_ready : ℕ → Item → Bool
is_ready now i = leb (or_zero i.retry_after) now

module _ (H : Host) where
  open H use {queues, time}

  -- `_schedule_retry`
  unfoldable pub schedule_retry : Item → List String → Exec (Manager H) (Unit {0})
  unfolding backoff retry_item
  schedule_retry item failed_backends m =
      let retry_count = or_zero item.retry_count + 1 in
      if ltb max_retries retry_count
      then (ok tt, record m { dead_letter_count = m.dead_letter_count + 1 })
      else (elim (backoff retry_count) [
        | none ↦ (raised other, m)
        | some delay ↦ (
          ok tt,
          record m {
            reads = m.reads + 1;
            retry_queue =
                queues.put (retry_item item failed_backends retry_count (time m.reads + delay))
                  m.retry_queue;
          },
        )
      ])

  -- The loop that empties the retry queue into `pending`.
  unfoldable pub drain : ℕ → queues.Queue → List Item → Option (List Item × queues.Queue)
  drain zero q pending = none
  drain (suc fuel) q pending = elim (queues.get_nowait q) [
    | none ↦ some (pending, q)
    | some (i, r) ↦ drain fuel (queues.task_done r) (pending ++ (i ∷ []))
  ]

  unfoldable pub put_all : List Item → queues.Queue → queues.Queue
  put_all [] q = q
  put_all (i ∷ is) q = put_all is (queues.put i q)

  -- One round of `_process_retry_queue`. The fuel is the size of the queue and one.
  unfoldable pub retry_round : Manager H → Option (Manager H)
  unfolding drain put_all
  retry_round m =
      let now = time m.reads in
      elim (drain (suc (queues.qsize m.retry_queue)) m.retry_queue []) [
        | none ↦ none
        | some (pending, q) ↦ some (record m {
          reads = m.reads + 1;
          retry_queue = put_all (keep (λ i. not (is_ready now i)) pending) q;
          save_queue = put_all (keep (is_ready now) pending) m.save_queue;
        })
      ]
