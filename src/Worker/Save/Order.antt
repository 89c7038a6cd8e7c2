-- ===== src/Worker/Save/Order.antt =====
-- The order in which the threads of an item end (`as_completed` in directdnsonly/worker.py).
pub mod Rounds
use mathlib.Core.Path.{fun_ext, ap₂, subst}
use mathlib.Core.List.{Perm, map-append}
use mathlib.Core.Option
use mathlib.Core.Option.{some-injective}
use directdnsonly.Base.{
  ℕ, ◌+◌, String, ◌≡◌, refl, sym, ap, ◌∙◌, Bool, true, false, Option, none, some, List, [], ◌∷◌,
  ◌++◌, arith, map, ==_iff, string_eq, contains, Bool-cases, inl, inr, leb, ◌≤◌, ◌<◌,
}
use directdnsonly.Base.Exec.{Result, ok, raised, pure, ◌>>=◌, ◌>>◌}
use directdnsonly.Worker.State.{Item, Host, IsHost, Manager, max_retries}
use directdnsonly.Worker.Backends.{targets}
use directdnsonly.Worker.Retry.{or_zero, schedule_retry, retry_item}
use directdnsonly.Worker.Retry.Schedule.{
  schedule_retry_returns, schedule_retry_again, schedule_retry_dead,
}
use directdnsonly.Worker.Save.{
  is_retry, index_zone, process_backends, store_zone_data, conclude, write_to, write_item,
  process_item, task_done,
}
use directdnsonly.Worker.Save.Writes.{contains-process_backends}

-- What is read of an item: its failed backends are only asked for names.
abbrev pub seen : Item → Item × Option (String → Bool)
seen i = (record i { failed_backends = none }, Option.map contains i.failed_backends)

seen-retry_item :
    (item : Item) (fs gs : List String) (n t : ℕ)
    → ((k : String) → contains fs k ≡ contains gs k)
    → seen (retry_item item fs n t) ≡ seen (retry_item item gs n t)
unfolding retry_item
seen-retry_item item fs gs n t h =
    ap
      (λ g. (
        record item {
          failed_backends = none;
          retry_count = some n;
          retry_after = some t;
          source = some "retry";
        },
        some g,
      ))
      (fun_ext h)

module _ (H : Host) (order : List (String × Bool) → List (String × Bool)) where
  open H use {database, queues}

  -- The same host, whose threads end in another order
  abbrev pub other : Host
  other = record H { as_completed = order }

  -- A state of it, with what waits for a retry
  abbrev pub moved : queues.Queue → Manager H → Manager other
  moved r m = record {
    table = m.table;
    save_queue = m.save_queue;
    delete_queue = m.delete_queue;
    retry_queue = r;
    dead_letter_count = m.dead_letter_count;
    backends = m.backends;
    reads = m.reads;
    session_record = m.session_record;
  }

  -- States that differ at most in the order of the failed backends of an item that waits for a retry
  abbrev pub Same : Manager H → Manager other → Type 0
  Same m n =
      (m.table ≡ n.table)
      × (m.save_queue ≡ n.save_queue)
      × (m.delete_queue ≡ n.delete_queue)
      × (map seen (queues.items m.retry_queue) ≡ map seen (queues.items n.retry_queue))
      × (m.dead_letter_count ≡ n.dead_letter_count)
      × (m.backends ≡ n.backends)
      × (m.reads ≡ n.reads)
      × (m.session_record ≡ n.session_record)

  abbrev pub Alike : Result Bool × Manager H → Result Bool × Manager other → Type 0
  Alike (r, m) (s, n) = (r ≡ s) × Same m n

  module _ (L : IsHost H) (P : (rs : List (String × Bool)) → Perm (order rs) rs) where
    other-IsHost : IsHost other
    other-IsHost = record { database = L.database; queues = L.queues; as_completed = P }

    -- What holds of every state that differs from one in the retry queue only
    by_moved :
        (Q : Manager other → Type 0) (m : Manager H) (n : Manager other)
        → Same m n
        → ((r : queues.Queue)
            → map seen (queues.items m.retry_queue) ≡ map seen (queues.items r)
            → Q (moved r m))
        → Q n
    by_moved Q m n (t, s, d, r, c, b, u, v) h =
        let same : moved n.retry_queue m ≡ n = cc (t, s, d, c, b, u, v) in
        subst Q same (h n.retry_queue r)

    index_zone-Alike :
        (item : Item) (m : Manager H) (n : Manager other)
        → Same m n
        → Alike (index_zone H item m) (index_zone other item n)
    unfolding index_zone
    index_zone-Alike item m n h =
        by_moved (λ n. Alike (index_zone H item m) (index_zone other item n)) m n h
          λ r e. elim (Bool-cases (is_retry item)) [
            | inl again ↦ rw again (refl, (refl, refl, refl, e, refl, refl, refl, refl))
            | inr first ↦ rw first (refl, (refl, refl, refl, e, refl, refl, refl, refl))
          ]

    store_zone_data-Same :
        (d z : String) (m : Manager H) (n : Manager other)
        → Same m n
        → Same (store_zone_data H d z m) (store_zone_data other d z n)
    unfolding store_zone_data
    store_zone_data-Same d z m n h =
        by_moved (λ n. Same (store_zone_data H d z m) (store_zone_data other d z n)) m n h
          λ r e. ground (arith, e)

    schedule_retry-Same :
        (item : Item) (fs gs : List String) (m : Manager H) (n : Manager other)
        → ((k : String) → contains fs k ≡ contains gs k)
        → Same m n
        → Same (schedule_retry H item fs m).1 (schedule_retry other item gs n).1
    schedule_retry-Same item fs gs m n h same =
        by_moved (λ n. Same (schedule_retry H item fs m).1 (schedule_retry other item gs n).1) m n
          same
          λ r waits. elim (Bool-cases (leb max_retries (or_zero item.retry_count))) [
            | inl full ↦
                let spent : max_retries ≤ or_zero item.retry_count = ground (arith, full) in
                rw
                  (
                    schedule_retry_dead H L.queues item fs m spent,
                    schedule_retry_dead other L.queues item gs (moved r m) spent,
                  )
                  (refl, refl, refl, waits, refl, refl, refl, refl)
            | inr rest ↦
                let few : or_zero item.retry_count < max_retries = ground (arith, rest) in
                let (t, e, again) = schedule_retry_again H L.queues item fs m few in
                let (u, e', again') = schedule_retry_again other L.queues item gs (moved r m) few in
                let c = or_zero item.retry_count + 1 in
                let x = retry_item item fs c (H.time m.reads + t) in
                let y = retry_item item gs c (H.time m.reads + u) in
                let delay : t ≡ u = some-injective _ _ (sym e ∙ e') in
                let alike : seen x ≡ seen y =
                  seen-retry_item item fs gs c (H.time m.reads + t) h
                  ∙ ap (λ d. seen (retry_item item gs c (H.time m.reads + d))) delay in
                rw (again, again')
                  (refl, refl, refl, queued x y m.retry_queue r alike waits, refl, refl, refl, refl)
          ]
      where
        queued :
            (x y : Item) (q r : queues.Queue)
            → seen x ≡ seen y
            → map seen (queues.items q) ≡ map seen (queues.items r)
            → map seen (queues.items (queues.put x q)) ≡ map seen (queues.items (queues.put y r))
        queued x y q r e waits =
            ap (map seen) (L.queues.items-put x q)
            ∙ map-append seen (queues.items q) (x ∷ [])
            ∙ ap₂ ◌++◌ waits (ap (λ v. v ∷ []) e)
            ∙ sym (map-append seen (queues.items r) (y ∷ []))
            ∙ ap (map seen) (sym (L.queues.items-put y r))

    task_done-Same :
        (m : Manager H) (n : Manager other)
        → Same m n
        → Same (task_done H m).1 (task_done other n).1
    task_done-Same m n (t, s, d, r, c, b, u, v) = (t, ap queues.task_done s, d, r, c, b, u, v)

    concluded :
        (item : Item) (d z : String) (fs gs : List String) (m : Manager H) (n : Manager other)
        → ((k : String) → contains fs k ≡ contains gs k)
        → Same m n
        → Alike
            ((do processed ← conclude H item d z fs; task_done H; pure processed) m)
            ((do processed ← conclude other item d z gs; task_done other; pure processed) n)
    unfolding conclude
    concluded item d z [] [] m n h same = (
      refl,
      task_done-Same (store_zone_data H d z m) (store_zone_data other d z n)
          (store_zone_data-Same d z m n same),
    )
    concluded item d z [] (g ∷ gs) m n h same = absurd (cc (h g, (==_iff g g).1 refl))
    concluded item d z (f ∷ fs) [] m n h same = absurd (cc (h f, (==_iff f f).1 refl))
    concluded item d z (f ∷ fs) (g ∷ gs) m n h same =
        ends (schedule_retry H item (f ∷ fs) m) (schedule_retry other item (g ∷ gs) n)
          (schedule_retry_returns H L.queues item (f ∷ fs) m)
          (schedule_retry_returns other L.queues item (g ∷ gs) n)
          (schedule_retry-Same item (f ∷ fs) (g ∷ gs) m n h same)
      where
        ends :
            (p : Result (Unit {0}) × Manager H) (q : Result (Unit {0}) × Manager other)
            → p.0 ≡ ok tt
            → q.0 ≡ ok tt
            → Same p.1 q.1
            → Alike
                ((do processed ← (do (λ _. p); pure false); task_done H; pure processed) m)
                ((do processed ← (do (λ _. q); pure false); task_done other; pure processed) n)
        ends (ok u, m1) (ok v, n1) e e' h1 = (refl, task_done-Same m1 n1 h1)
        ends (ok u, m1) (raised x, n1) e e' h1 = absurd (cc e')
        ends (raised x, m1) (ok u, n1) e e' h1 = absurd (cc e)
        ends (raised x, m1) (raised y, n1) e e' h1 = absurd (cc e)

    failed-alike :
        (bs : List (String × H.Instance)) (d z : String) (m : Manager H) (r : queues.Queue)
        (k : String)
        → contains (process_backends H bs d z m).0 k
          ≡ contains (process_backends other bs d z (moved r m)).0 k
    failed-alike bs d z m r k =
        contains-process_backends H L bs d z m k
        ∙ sym (contains-process_backends other other-IsHost bs d z (moved r m) k)

    write_to-Alike :
        (item : Item) (d z : String) (bs : List (String × H.Instance)) (m : Manager H)
        (n : Manager other)
        → Same m n
        → Alike (write_to H item d z bs m) (write_to other item d z bs n)
    unfolding process_backends
    write_to-Alike item d z [] m n same = (refl, task_done-Same m n same)
    write_to-Alike item d z (b ∷ bs) m n same =
        by_moved (λ n. Alike (write_to H item d z (b ∷ bs) m) (write_to other item d z (b ∷ bs) n))
          m n same
          λ r e.
            concluded item d z (process_backends H (b ∷ bs) d z m).0
              (process_backends other (b ∷ bs) d z (moved r m)).0
              (process_backends H (b ∷ bs) d z m).1
              (process_backends other (b ∷ bs) d z (moved r m)).1 (failed-alike (b ∷ bs) d z m r)
              (refl, refl, refl, e, refl, refl, refl, refl)

    write_item-Alike :
        (item : Item) (domain zone_file : Option String) (m : Manager H) (n : Manager other)
        → Same m n
        → Alike (write_item H item domain zone_file m) (write_item other item domain zone_file n)
    write_item-Alike item (some d) (some z) m n same =
        by_moved
          (λ n.
            Alike (write_item H item (some d) (some z) m)
              (write_item other item (some d) (some z) n))
          m n same
          λ r e.
            write_to-Alike item d z (targets item.failed_backends m.backends) m (moved r m)
              (refl, refl, refl, e, refl, refl, refl, refl)
    write_item-Alike item (some d) none m n same = (refl, task_done-Same m n same)
    write_item-Alike item none z m n same = (refl, task_done-Same m n same)

    pub process_item-Alike :
        (item : Item) (m : Manager H) (n : Manager other)
        → Same m n
        → Alike (process_item H item m) (process_item other item n)
    unfolding process_item
    process_item-Alike item m n same =
        runs (index_zone H item m) (index_zone other item n) (index_zone-Alike item m n same)
      where
        runs :
            (p : Result Bool × Manager H) (q : Result Bool × Manager other)
            → Alike p q
            → Alike
                (((λ _. p) >> write_item H item item.domain item.zone_file) m)
                (((λ _. q) >> write_item other item item.domain item.zone_file) n)
        runs (ok b, m1) (ok c, n1) (e, h) = write_item-Alike item item.domain item.zone_file m1 n1 h
        runs (ok b, m1) (raised x, n1) (e, h) = absurd (cc e)
        runs (raised x, m1) (ok c, n1) (e, h) = absurd (cc e)
        runs (raised x, m1) (raised y, n1) (e, h) = (cc e, h)
