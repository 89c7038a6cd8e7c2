-- ===== src/Worker/Retry/Drain.antt =====
-- The retry drain worker takes every waiting item once and feeds each to one of two queues.
use directdnsonly.Base.{
  Option, ℕ, zero, suc, ◌+◌, ◌<◌, ◌≡◌, refl, ◌∙◌, not, some, List, [], ◌∷◌, ◌++◌, arith, keep,
  length,
}
use mathlib.Core.List.{append-nil, append_assoc}
use directdnsonly.Queue.{IsFifo}
use directdnsonly.Worker.State.{Item, Host, Manager}
use directdnsonly.Worker.Retry.{is_ready, drain, put_all, retry_round}

-- A round that ends with each item of the retry queue on one of two queues: behind the save queue if
-- its time has come, on the retry queue if not, in the order in which they waited.
abbrev pub Drained : (H : Host) → Manager H → Option (Manager H) → Type 0
Drained H m round =
    let now = H.time m.reads in
    let waiting = H.queues.items m.retry_queue in
    (m' : Manager H) × (round ≡ some m')
    × (H.queues.items m'.retry_queue ≡ keep (λ i. not (is_ready now i)) waiting)
    × (H.queues.items m'.save_queue ≡ H.queues.items m.save_queue ++ keep (is_ready now) waiting)
    × (m'.table ≡ m.table)
    × (m'.backends ≡ m.backends)
    × (m'.delete_queue ≡ m.delete_queue)
    × (m'.dead_letter_count ≡ m.dead_letter_count)
    × (m'.session_record ≡ m.session_record)

module _ (H : Host) (F : IsFifo H.queues) where
  open H use {queues, time}

  items-put_all :
      (is : List Item) (q : queues.Queue) → queues.items (put_all H is q) ≡ queues.items q ++ is
  unfolding put_all
  items-put_all [] q = rw append-nil
  items-put_all (i ∷ is) q = items-put_all is (queues.put i q) ∙ rw (F.items-put, append_assoc)

  drain_lem :
      (fuel : ℕ) (xs pending : List Item) (q : queues.Queue)
      → queues.items q ≡ xs
      → length xs < fuel
      → (r : queues.Queue) × (drain H fuel q pending ≡ some (pending ++ xs, r))
        × (queues.items r ≡ [])
  unfolding drain
  drain_lem zero xs pending q e h = absurd (omega arith)
  drain_lem (suc fuel) [] pending q e h = (q, rw (F.get_empty q e, drain, append-nil), e)
  drain_lem (suc fuel) (x ∷ xs) pending q e h =
      let (r, got, left) = F.get_oldest x xs q e in
      let (s, done, none_left) =
        drain_lem fuel xs (pending ++ (x ∷ [])) (queues.task_done r) (F.items-task_done r ∙ left)
          (omega arith) in
      (s, rw (got, drain) (done ∙ rw append_assoc), none_left)

  -- The round ends, with each waiting item at the back of the queue that its time chooses.
  pub retry_round_lem : (m : Manager H) → Drained H m (retry_round H m)
  unfolding retry_round
  retry_round_lem m =
      let xs = queues.items m.retry_queue in
      let wait = keep (λ (i : Item). not (is_ready (time m.reads) i)) xs in
      let go = keep (is_ready (time m.reads)) xs in
      let (r, done, left) =
        drain_lem (suc (queues.qsize m.retry_queue)) xs [] m.retry_queue refl
          (omega (arith, F.qsize-items m.retry_queue)) in
      (
        record m {
          reads = m.reads + 1;
          retry_queue = put_all H wait r;
          save_queue = put_all H go m.save_queue;
        },
        rw (done, retry_round),
        items-put_all wait r ∙ rw left,
        items-put_all go m.save_queue,
        refl,
        refl,
        refl,
        refl,
        refl,
      )
