-- ===== src/Worker/Save/Published.antt =====
-- What an item that the save worker (directdnsonly/worker.py) counts as processed leaves on the
-- backends.
use mathlib.Core.Path.{subst}
use directdnsonly.Base.{
  String, ◌≡◌, refl, sym, ap, ◌∙◌, Bool, true, false, Option, some, List, [], ◌∷◌, string_eq, arith,
  contains,
}
use directdnsonly.Base.Exec.{Result, ok, raised, pure, ◌>>=◌, ◌>>◌}
use directdnsonly.Backend.Store.{Files, SameElse}
use directdnsonly.Worker.State.{Item, Host, IsHost, Manager}
use directdnsonly.Worker.Backends.{targets}
use directdnsonly.Worker.Backends.Files.{IsServer, process_single_backend-Written}
use directdnsonly.Worker.Backends.Outcomes.{reports_failure, instance_of, apply_to}
use directdnsonly.Worker.Retry.Schedule.{schedule_retry_returns}
use directdnsonly.Worker.Save.{
  index_zone, process_backends, conclude, write_to, write_item, process_item, task_done,
  domain_names,
}
use directdnsonly.Worker.Save.Outcome.{store_zone_data_keeps}
use directdnsonly.Worker.Save.Writes.{
  write_call, contains-process_backends, instance_of-process_backends, instance_of-targets,
}

module _ {S : Type 0} where
  unfailed :
      (f : S → Bool × S) (n : String) (bs : List (String × S)) (s : S)
      → instance_of n bs ≡ some s
      → reports_failure f n bs ≡ false
      → (f s).0 ≡ true
  unfailed f n [] s h k = absurd (cc h)
  unfailed f n ((j, t) ∷ rest) s h k = ground (arith, unfailed f n rest s)

module _ (H : Host) (L : IsHost H) where
  -- What follows the calls, if the item counts as processed
  concluded :
      (item : Item) (d z : String) (failed : List String) (m : Manager H)
      → let (r, m') = (do processed ← conclude H item d z failed; task_done H; pure processed) m in
        r ≡ ok true → (failed ≡ []) × (m'.backends ≡ m.backends)
  unfolding conclude
  concluded item d z [] m h = (refl, (store_zone_data_keeps H L d z m).2)
  concluded item d z (x ∷ xs) m h =
      absurd (ground (arith, h, schedule_retry_returns H L.queues item (x ∷ xs) m))

  write_to_processed :
      (item : Item) (d z : String) (bs : List (String × H.Instance)) (m : Manager H)
      → (write_to H item d z bs m).0 ≡ ok true
      → ((n : String) → reports_failure (write_call H d z m.table) n bs ≡ false)
        × ((write_to H item d z bs m).1.backends ≡ (process_backends H bs d z m).1.backends)
  write_to_processed item d z [] m h = absurd (cc h)
  write_to_processed item d z (b ∷ bs) m h =
      let (failed, m') = process_backends H (b ∷ bs) d z m in
      let (none_failed, same) = concluded item d z failed m' h in
      (
        (λ n.
            sym (contains-process_backends H L (b ∷ bs) d z m n)
            ∙ ap (λ fs. contains fs n) none_failed),
        same,
      )

  write_item_lem :
      (item : Item) (domain zone_file : Option String) (d z : String) (m : Manager H)
      → domain ≡ some d
      → zone_file ≡ some z
      → write_item H item domain zone_file m
        ≡ write_to H item d z (targets item.failed_backends m.backends) m
  write_item_lem item domain zone_file d z m e e' = rw (e, e') refl

  index_zone_keeps : (item : Item) (m : Manager H) → (index_zone H item m).1.backends ≡ m.backends
  unfolding index_zone
  index_zone_keeps item m = ground arith

module _ (H : Host) (L : IsHost H) (files : Files H.Instance) (I : IsServer files H.backend) where
  -- Under the name stands an instance with the text in the file of the zone, which its check confirms;
  -- its other files are those of the instance that was there before.
  abbrev pub Holds : String → String → String → H.Instance → List (String × H.Instance) → Type 0
  Holds n d z s after =
      (s' : H.Instance) × (instance_of n after ≡ some s')
      × (files s' d ≡ some z)
      × (H.backend.zone_exists d s' ≡ (ok true, s'))
      × SameElse files d s s'

  process_backends-Holds :
      (bs : List (String × H.Instance)) (d z n : String) (m : Manager H) (s old : H.Instance)
      → instance_of n bs ≡ some s
      → instance_of n m.backends ≡ some old
      → reports_failure (write_call H d z m.table) n bs ≡ false
      → Holds n d z s (process_backends H bs d z m).1.backends
  process_backends-Holds bs d z n m s old aimed there succeeds =
      let f = write_call H d z m.table in
      let (same, held) =
        process_single_backend-Written files H.backend I H.from_text (domain_names H m.table) d z
          s in
      let (text, reached) = held (unfailed f n bs s aimed succeeds) in
      (
        (f s).1,
        instance_of-process_backends H L bs d z m n
            ∙ ap (λ a. apply_to f a (instance_of n m.backends)) aimed
            ∙ ap (apply_to f (some s)) there,
        text,
        I.store.exists_ends d (f s).1 ∙ rw (text, reached) refl,
        same,
      )

  -- If the host keeps its assumptions and its backends are stores of zone files, then after an item
  -- that counts as processed, a push, a retry or a heal, the backend of every target holds the zone
  -- file of the item in the file of its domain, says so when it is asked, and has its other files as
  -- before.
  pub process_item-Holds :
      (item : Item) (d z n : String) (m : Manager H) (s : H.Instance)
      → item.domain ≡ some d
      → item.zone_file ≡ some z
      → (process_item H item m).0 ≡ ok true
      → instance_of n (targets item.failed_backends m.backends) ≡ some s
      → Holds n d z s (process_item H item m).1.backends
  unfolding process_item
  process_item-Holds item d z n m s named filed done aimed =
      runs (index_zone H item m) (index_zone_keeps H L item m) done
    where
      written :
          (m1 : Manager H)
          → m1.backends ≡ m.backends
          → (write_item H item item.domain item.zone_file m1).0 ≡ ok true
          → Holds n d z s (write_item H item item.domain item.zone_file m1).1.backends
      written m1 same h =
          let bs = targets item.failed_backends m1.backends in
          let w = write_item_lem H L item item.domain item.zone_file d z m1 named filed in
          let ran : (write_to H item d z bs m1).0 ≡ ok true =
            ap (λ (q : Result Bool × Manager H). q.0) (sym w) ∙ h in
          let (none_failed, after) = write_to_processed H L item d z bs m1 ran in
          let target : instance_of n bs ≡ some s =
            ap (λ b. instance_of n (targets item.failed_backends b)) same ∙ aimed in
          let there : instance_of n m1.backends ≡ some s =
            ground (arith, instance_of-targets item.failed_backends n m1.backends, target) in
          subst (λ q. Holds n d z s q.1.backends) (sym w)
            (rw after (process_backends-Holds bs d z n m1 s s target there (none_failed n)))

      runs :
          (p : Result Bool × Manager H)
          → p.1.backends ≡ m.backends
          → (((λ (_ : Manager H). p) >> write_item H item item.domain item.zone_file) m).0 ≡ ok true
          → Holds n d z s
              (((λ (_ : Manager H). p) >> write_item H item item.domain item.zone_file)
                m).1.backends
      runs (ok b, m1) same h = written m1 same h
      runs (raised x, m1) same h = absurd (cc h)
