-- ===== src/System/Saves.antt =====
-- A round of the save worker (directdnsonly/worker.py, `_process_save_queue`) as its items.
use mathlib.Core.Path.{subst}
use mathlib.Core.Option.{some-injective}
use directdnsonly.Base.{refl, ℕ, zero, suc, ◌≡◌, sym, ap, ◌∙◌, Option, some, List, [], ◌∷◌}
use directdnsonly.Worker.State.{Item, Host, IsHost, Manager}
use directdnsonly.Worker.Save.Batch.{process_item_queue, save_round-total}
use directdnsonly.Worker.Save.{process_item, batch, save_round, count_processed, count_failed}
use directdnsonly.System.{saves, Reaches, at_start, follows}
use directdnsonly.System.Threads.{Reaches-trans}

module _ (H : Host) where
  open H use {queues}

  -- The save worker takes the items of the list, one after the other, each as the oldest of its
  -- queue, and handles each as a whole.
  pub data Saves : List Item → Manager H → Manager H → Type 0 where
    none_left : (m : Manager H) → Saves [] m m
    takes :
        (item : Item) (items : List Item) (q : queues.Queue) (m m' : Manager H)
        → queues.get_nowait m.save_queue ≡ some (item, q)
        → Saves items (process_item H item (record m { save_queue = q })).1 m'
        → Saves (item ∷ items) m m'

  Saves-Reaches : {items : List Item} {m m' : Manager H} → Saves items m m' → Reaches H m m'
  Saves-Reaches (none_left m) = at_start
  Saves-Reaches (takes item items q m m' got rest) =
      Reaches-trans H (follows at_start (saves m item q got)) (Saves-Reaches rest)

  same_end :
      (xs : List Item) (p f p' f' : ℕ) (m n n' : Manager H)
      → Path (Option (ℕ × ℕ × Manager H)) (some (p, f, n)) (some (p', f', n'))
      → Saves xs m n
      → Saves xs m n'
  same_end xs p f p' f' m n n' e h =
      subst (Saves xs m) (ap (λ (x : ℕ × ℕ × Manager H). x.2) (some-injective _ _ e)) h

  -- The round ends, has taken each item that waited, in its order, and no other, and none waits.
  abbrev pub SavesAll : Manager H → Option (ℕ × ℕ × Manager H) → Type 0
  SavesAll m round =
      (p f : ℕ) × (m' : Manager H) × (round ≡ some (p, f, m'))
      × Saves (queues.items m.save_queue) m m'
      × (queues.items m'.save_queue ≡ [])

  module _ (L : IsHost H) where
    batch-Saves :
        (fuel : ℕ) (item : Item) (q : queues.Queue) (p f p' f' : ℕ) (m m' : Manager H)
        (xs : List Item)
        → queues.get_nowait m.save_queue ≡ some (item, q)
        → queues.items q ≡ xs
        → batch H fuel item p f (record m { save_queue = q }) ≡ some (p', f', m')
        → Saves (item ∷ xs) m m'
    unfolding batch
    batch-Saves zero item q p f p' f' m m' xs got waits e = absurd cc
    batch-Saves (suc fuel) item q p f p' f' m m' [] got waits e =
        let (r, m1) = process_item H item (record m { save_queue = q }) in
        let idle =
          L.queues.get_empty m1.save_queue
            (process_item_queue H L item (record m { save_queue = q }) ∙ waits) in
        let last : batch H (suc fuel) item p f (record m { save_queue = q })
            ≡ some (count_processed H r p, count_failed H r f, m1) =
          rw (idle, batch) in
        same_end (item ∷ []) (count_processed H r p) (count_failed H r f) p' f' m m1 m'
          (sym last ∙ e) (takes item [] q m m1 got (none_left m1))
    batch-Saves (suc fuel) item q p f p' f' m m' (x ∷ xs) got waits e =
        let (r, m1) = process_item H item (record m { save_queue = q }) in
        let (q', more, left) =
          L.queues.get_oldest x xs m1.save_queue
            (process_item_queue H L item (record m { save_queue = q }) ∙ waits) in
        let p1 = count_processed H r p in
        let f1 = count_failed H r f in
        let on : batch H (suc fuel) item p f (record m { save_queue = q })
            ≡ batch H fuel x p1 f1 (record m1 { save_queue = q' }) =
          rw (more, batch) in
        takes item (x ∷ xs) q m m' got
          (batch-Saves fuel x q' p1 f1 p' f' m1 m' xs more left (sym on ∙ e))

    round-Saves :
        (p f : ℕ) (m m' : Manager H) (xs : List Item)
        → queues.items m.save_queue ≡ xs
        → save_round H m ≡ some (p, f, m')
        → Saves xs m m'
    unfolding save_round
    round-Saves p f m m' [] waits e =
        let idle : save_round H m ≡ some (0, 0, m) =
          rw (L.queues.get_empty m.save_queue waits, save_round) in
        same_end [] 0 0 p f m m m' (sym idle ∙ e) (none_left m)
    round-Saves p f m m' (x ∷ xs) waits e =
        let (q, got, left) = L.queues.get_oldest x xs m.save_queue waits in
        let busy : save_round H m
            ≡ batch H (suc (queues.qsize q)) x 0 0 (record m { save_queue = q }) =
          rw (got, save_round) in
        batch-Saves (suc (queues.qsize q)) x q 0 0 p f m m' xs got left (sym busy ∙ e)

    -- If the host keeps its assumptions, a round of the save worker ends, and has then taken the items
    -- that waited at its start, each of them and in their order, and no other, and handled each as a
    -- whole before it took the next; none waits any more.
    pub save_round-Saves : (m : Manager H) → SavesAll m (save_round H m)
    save_round-Saves m =
        let (p, f, m', e, none_waits, total) = save_round-total H L m in
        (p, f, m', e, round-Saves p f m m' (queues.items m.save_queue) refl e, none_waits)
