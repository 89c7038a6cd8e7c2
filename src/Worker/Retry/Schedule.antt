-- ===== src/Worker/Retry/Schedule.antt =====
-- What `_schedule_retry` does with a failed item: back on the retry queue, or a dead letter.
use Prim.Native.Nat.{min}
use directdnsonly.Base.{
  ℕ, zero, suc, ◌+◌, ◌-◌, ◌≤◌, ◌<◌, String, ◌≡◌, refl, some, List, [], ◌∷◌, arith, ◌⊎◌, length,
}
use directdnsonly.Base.Exec.{ok}
use directdnsonly.Queue.{IsFifo}
use directdnsonly.Worker.State.{Item, max_retries, backoff_seconds, Host, Manager}
use directdnsonly.Worker.Retry.{or_zero, get_elem?, backoff, retry_item, schedule_retry}

get_elem?_in_range : (xs : List ℕ) (i : ℕ) → i < length xs → (x : ℕ) × (get_elem? xs i ≡ some x)
get_elem?_in_range [] i h = absurd (omega arith)
get_elem?_in_range (x ∷ xs) zero h = (x, refl)
get_elem?_in_range (x ∷ xs) (suc i) h = get_elem?_in_range xs i (omega arith)

-- The entries of the table.
abbrev IsEntry : ℕ → ℕ → Type 0
IsEntry i d =
    ((i ≡ 0) × (d ≡ 30))
    ⊎ ((i ≡ 1) × (d ≡ 120))
    ⊎ ((i ≡ 2) × (d ≡ 300))
    ⊎ ((i ≡ 3) × (d ≡ 900))
    ⊎ ((i ≡ 4) × (d ≡ 1800))

get_elem?-IsEntry : (i d : ℕ) → get_elem? backoff_seconds i ≡ some d → IsEntry i d
get_elem?-IsEntry zero d h = ground arith
get_elem?-IsEntry (suc zero) d h = ground arith
get_elem?-IsEntry (suc (suc zero)) d h = ground arith
get_elem?-IsEntry (suc (suc (suc zero))) d h = ground arith
get_elem?-IsEntry (suc (suc (suc (suc zero)))) d h = ground arith
get_elem?-IsEntry (suc (suc (suc (suc (suc i))))) d h = ground arith

get_elem?_delay : (i d : ℕ) → get_elem? backoff_seconds i ≡ some d → (30 ≤ d) × (d ≤ 1800)
get_elem?_delay i d h = let c : IsEntry i d = get_elem?-IsEntry i d h in ground arith

-- The index into the table is in range for every count, and the delay is 30 s to 30 min.
pub backoff_bounds : (count : ℕ) → (d : ℕ) × (backoff count ≡ some d) × (30 ≤ d) × (d ≤ 1800)
unfolding backoff
backoff_bounds count =
    let i : ℕ = min (count - 1) (length backoff_seconds - 1) in
    let (d, e) = get_elem?_in_range backoff_seconds i (omega arith) in
    let b : (30 ≤ d) × (d ≤ 1800) = get_elem?_delay i d e in (d, e, b.0, b.1)

-- A later retry never waits less than an earlier one.
pub backoff_mono : (n k d e : ℕ) → n ≤ k → backoff n ≡ some d → backoff k ≡ some e → d ≤ e
unfolding backoff
backoff_mono n k d e h p q =
    let a : IsEntry (min (n - 1) 4) d = get_elem?-IsEntry (min (n - 1) 4) d p in
    let b : IsEntry (min (k - 1) 4) e = get_elem?-IsEntry (min (k - 1) 4) e q in ground arith

module _ (H : Host) (F : IsFifo H.queues) (item : Item) (failed : List String) (m : Manager H) where
  pub schedule_retry_returns : (schedule_retry H item failed m).0 ≡ ok tt
  unfolding schedule_retry
  schedule_retry_returns =
      let (d, e, lo, hi) = backoff_bounds (or_zero item.retry_count + 1) in ground arith

  pub schedule_retry_again :
      or_zero item.retry_count < max_retries
      → (delay : ℕ) × (backoff (or_zero item.retry_count + 1) ≡ some delay)
        × (schedule_retry H item failed m).1 ≡ record m {
          reads = m.reads + 1;
          retry_queue =
              H.queues.put
                (retry_item item failed (or_zero item.retry_count + 1) (H.time m.reads + delay))
                m.retry_queue;
        }
  unfolding schedule_retry
  schedule_retry_again h =
      let (d, e, lo, hi) = backoff_bounds (or_zero item.retry_count + 1) in (d, e, ground arith)

  pub schedule_retry_dead :
      max_retries ≤ or_zero item.retry_count
      → (schedule_retry H item failed m).1
        ≡ record m { dead_letter_count = m.dead_letter_count + 1 }
  unfolding schedule_retry
  schedule_retry_dead h = ground arith

-- Only the retry queue, the clock and the count of dead letters can change.
pub schedule_retry_keeps :
    (H : Host) (item : Item) (failed : List String) (m : Manager H)
    → let m' = (schedule_retry H item failed m).1 in
      (m'.table ≡ m.table)
      × (m'.save_queue ≡ m.save_queue)
      × (m'.delete_queue ≡ m.delete_queue)
      × (m'.backends ≡ m.backends)
unfolding schedule_retry
schedule_retry_keeps H item failed m = ground arith
