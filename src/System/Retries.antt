-- ===== src/System/Retries.antt =====
-- No item is ever retried more often than the limit allows.
use mathlib.Core.Path.{subst}
use mathlib.Core.Option.{some-injective}
use directdnsonly.Base.{
  ℕ, ◌+◌, ◌≤◌, String, ◌≡◌, refl, sym, ◌∙◌, Bool, true, false, Option, none, some, List, [], ◌∷◌,
  ltb, All, All-append, inl, inr, Bool-cases, Option-cases, arith,
}
use directdnsonly.Base.Exec.{Result}
use directdnsonly.Database.{Domain}
use directdnsonly.Worker.State.{Item, Host, IsHost, Manager, max_retries}
use directdnsonly.Worker.Retry.{or_zero, backoff, retry_item, schedule_retry, retry_round}
use directdnsonly.Worker.Retry.Drain.{retry_round_lem}
use directdnsonly.Worker.Save.{index_zone, process_item, process_backends, store_zone_data}
use directdnsonly.Worker.Delete.{delete_item, delete_from_backends}
use directdnsonly.Reconciler.Poll.{Server}
use directdnsonly.Reconciler.Heal.{
  heal_item, missing_from, queue_heal, heal_row, heal_rows, heal_backends,
}
use directdnsonly.Reconciler.Pass.{commit_rows}
use directdnsonly.Admin.{Request, Answer, answer_post, push_item}
use directdnsonly.System.{
  Step, handles, saves, deletes, drains, reconciles, syncs, Reaches, at_start, follows,
}
use directdnsonly.System.Parts.{process_item_keeps, compared, reconcile_all_keeps}
use directdnsonly.System.Items.{put-Waiting, get-Waiting, All-keep, handle_post_cases}

-- The item has been retried within the limit.
abbrev pub IsCounted : Item → Type 0
IsCounted i = or_zero i.retry_count ≤ max_retries

module _ (H : Host) (L : IsHost H) where
  open H use {database, queues}

  -- Every item that waits to be saved or retried is within the limit.
  pub record Inv (m : Manager H) : Type 0 where
    pub saved : All IsCounted (queues.items m.save_queue)
    pub retried : All IsCounted (queues.items m.retry_queue)

  schedule_retry-Inv :
      (item : Item) (failed : List String) (m : Manager H)
      → Inv m
      → Inv (schedule_retry H item failed m).1
  unfolding schedule_retry retry_item
  schedule_retry-Inv item failed m v =
      elim (Bool-cases (ltb max_retries (or_zero item.retry_count + 1))) [
        | inl over ↦ rw over (record { saved = v.saved; retried = v.retried })
        | inr under ↦ elim (Option-cases (backoff (or_zero item.retry_count + 1))) [
          | inl e ↦ rw (under, e) v
          | inr (delay, e) ↦
              rw (under, e)
                (record {
                  saved = v.saved;
                  retried =
                      put-Waiting L.queues IsCounted _ m.retry_queue (ground (arith, under))
                        v.retried;
                })
        ]
      ]

  -- Moving along equations between the queues
  moved :
      {m m' : Manager H}
      → (m'.save_queue ≡ m.save_queue) × (m'.retry_queue ≡ m.retry_queue)
      → Inv m
      → Inv m'
  moved (e, e') v = record {
    saved = subst (λ q. All IsCounted (queues.items q)) (sym e) v.saved;
    retried = subst (λ q. All IsCounted (queues.items q)) (sym e') v.retried;
  }

  stored_queues :
      (d z : String) (m : Manager H)
      → ((store_zone_data H d z m).save_queue ≡ m.save_queue)
        × ((store_zone_data H d z m).retry_queue ≡ m.retry_queue)
  unfolding store_zone_data
  stored_queues d z m = ground arith

  written_queues :
      (bs : List (String × H.Instance)) (d z : String) (m : Manager H)
      → ((process_backends H bs d z m).1.save_queue ≡ m.save_queue)
        × ((process_backends H bs d z m).1.retry_queue ≡ m.retry_queue)
  unfolding process_backends
  written_queues bs d z m = (refl, refl)

  indexed_queues :
      (item : Item) (m : Manager H)
      → ((index_zone H item m).1.save_queue ≡ m.save_queue)
        × ((index_zone H item m).1.retry_queue ≡ m.retry_queue)
  unfolding index_zone
  indexed_queues item m = ground arith

  process_item-Inv : (item : Item) (m : Manager H) → Inv m → Inv (process_item H item m).1
  process_item-Inv item m v =
      process_item_keeps H Inv (λ bs d z m. moved (written_queues bs d z m))
        (λ d z m. moved (stored_queues d z m)) schedule_retry-Inv
        (λ m v. record {
          saved = subst (All IsCounted) (sym (L.queues.items-task_done m.save_queue)) v.saved;
          retried = v.retried;
        })
        item m (moved (indexed_queues item m) v)

  answer_post-Inv : (r : Request) (m : Manager H) → Inv m → Inv (answer_post H r m).1
  unfolding answer_post push_item
  answer_post-Inv r m v =
      handle_post_cases H (λ (p : Result Answer × Manager H). Inv p.1) m (λ a. v)
        (λ d z params. record {
          saved = put-Waiting L.queues IsCounted _ m.save_queue (omega arith) v.saved;
          retried = v.retried;
        })
        (λ d params. record { saved = v.saved; retried = v.retried }) r

  delete_item_queues :
      (item : Item) (m : Manager H)
      → let m' = (delete_item H item m).1 in
        (m'.save_queue ≡ m.save_queue) × (m'.retry_queue ≡ m.retry_queue)
  unfolding delete_item delete_from_backends
  delete_item_queues item m = ground arith

  heal_row-Inv :
      (dry : Bool) (r : Domain) (z : Option String) (m : Manager H)
      → Inv m
      → Inv (heal_row H dry r z m).1
  unfolding heal_row heal_item
  heal_row-Inv dry r none m v = v
  heal_row-Inv dry r (some z) m v =
      let (missing, after) = missing_from H r.domain m.backends in
      queued missing (record m { backends = after })
        (record { saved = v.saved; retried = v.retried })
    where
      live :
          (b : Bool) (n : String) (ns : List String) (m : Manager H)
          → Inv m
          → Inv (queue_heal H b r z (n ∷ ns) m).1
      live true n ns m v = v
      live false n ns m v = record {
        saved = put-Waiting L.queues IsCounted _ m.save_queue (omega arith) v.saved;
        retried = v.retried;
      }

      queued :
          (missing : List String) (m : Manager H) → Inv m → Inv (queue_heal H dry r z missing m).1
      queued [] m v = v
      queued (n ∷ ns) m v = live dry n ns m v

  heal_rows-Inv :
      (dry : Bool) (rows : List Domain) (m : Manager H) → Inv m → Inv (heal_rows H dry rows m).1
  unfolding heal_rows
  heal_rows-Inv dry [] m v = v
  heal_rows-Inv dry (r ∷ rows) m v =
      heal_rows-Inv dry rows (heal_row H dry r r.zone_data m).1 (heal_row-Inv dry r r.zone_data m v)

  heal_backends-Inv : (dry : Bool) (m : Manager H) → Inv m → Inv (heal_backends H dry m).1
  unfolding heal_backends
  heal_backends-Inv dry m v =
      elim m.backends
        as (λ bs.
          Inv
            (elim bs as (λ _. ℕ × Manager H) [
              | [] ↦ (0, m)
              | b ∷ bs ↦ heal_rows H dry (database.all m.table) m
            ]).1) [ [] ↦ v | b ∷ bs ↦ heal_rows-Inv dry (database.all m.table) m v ]

  compared_queues :
      (poll : String → Result (Option (List String))) (servers : List Server) (dry : Bool)
      (m : Manager H)
      → ((compared H poll servers dry m).1.save_queue ≡ m.save_queue)
        × ((compared H poll servers dry m).1.retry_queue ≡ m.retry_queue)
  unfolding commit_rows
  compared_queues poll servers dry m = ground arith

  retry_round-Inv : (m m' : Manager H) → retry_round H m ≡ some m' → Inv m → Inv m'
  retry_round-Inv m m' e v =
      let (next, e', waits, goes, t, b, d, n, r) = retry_round_lem H L.queues m in
      subst Inv (some-injective _ _ (sym e' ∙ e)) (record {
        saved = subst (All IsCounted) (sym goes) (
            All-append IsCounted (queues.items m.save_queue) _ v.saved
              (All-keep IsCounted _ _ v.retried));
        retried = subst (All IsCounted) (sym waits) (All-keep IsCounted _ _ v.retried);
      })

  Step-Inv : {m m' : Manager H} → Step H m m' → Inv m → Inv m'
  Step-Inv (handles r m) v = answer_post-Inv r m v
  Step-Inv (saves m item q e) v =
      process_item-Inv item (record m { save_queue = q })
        (record {
          saved = (get-Waiting L.queues IsCounted m.save_queue q item e v.saved).1;
          retried = v.retried;
        })
  Step-Inv (deletes m item q e) v =
      moved {m = record m { delete_queue = q }}
        (delete_item_queues item (record m { delete_queue = q }))
        (record { saved = v.saved; retried = v.retried })
  Step-Inv (drains m m' e) v = retry_round-Inv m m' e v
  Step-Inv (reconciles poll servers dry m) v =
      reconcile_all_keeps H poll servers dry m Inv (moved (compared_queues poll servers dry m) v)
        (heal_backends-Inv dry)
  Step-Inv (syncs peer m) v = record { saved = v.saved; retried = v.retried }

  -- If the host keeps its assumptions and no item on the save or the retry queue counts more than five
  -- retries, then none does after any sequence of steps of the handlers, the workers, the reconciler
  -- and the peer sync.
  pub Reaches-Inv : (m m' : Manager H) → Inv m → Reaches H m m' → Inv m'
  Reaches-Inv m m' v at_start = v
  Reaches-Inv m m'' v (follows r s) = Step-Inv s (Reaches-Inv m _ v r)
