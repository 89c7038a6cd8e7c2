-- ===== src/System/Parts.antt =====
-- What each part of a save keeps, the save keeps; and so for a reconciliation pass.
use mathlib.Core.Path.{subst}
use directdnsonly.Base.{
  String, ◌≡◌, sym, Bool, false, Option, none, some, List, [], ◌∷◌, inl, inr, ◌⊎◌, arith,
}
use directdnsonly.Base.Exec.{Result, ok, raised, pure, ◌>>=◌, ◌>>◌}
use directdnsonly.Worker.State.{Item, Host, Manager}
use directdnsonly.Worker.Backends.{targets}
use directdnsonly.Worker.Retry.{schedule_retry}
use directdnsonly.Worker.Save.{
  index_zone, process_item, process_backends, conclude, task_done, write_item, write_to,
  store_zone_data,
}
use directdnsonly.Reconciler.Poll.{Server}
use directdnsonly.Reconciler.Heal.{heal_backends}
use directdnsonly.Reconciler.Pass.{progress, commit_rows, reconcile_all}

module _ (H : Host) (P : Manager H → Type 0)
    (written : (bs : List (String × H.Instance)) (d z : String) (m : Manager H)
      → P m
      → P (process_backends H bs d z m).1)
    (stored : (d z : String) (m : Manager H) → P m → P (store_zone_data H d z m))
    (scheduled : (item : Item) (failed : List String) (m : Manager H)
      → P m
      → P (schedule_retry H item failed m).1)
    (acknowledged : (m : Manager H) → P m → P (task_done H m).1) where
  concluded :
      (item : Item) (d z : String) (failed : List String) (m : Manager H)
      → P m
      → P (conclude H item d z failed m).1
  unfolding conclude
  concluded item d z [] m h = stored d z m h
  concluded item d z (b ∷ bs) m h =
      unprocessed (schedule_retry H item (b ∷ bs) m) (scheduled item (b ∷ bs) m h)
    where
      unprocessed : (p : Result (Unit {0}) × Manager H) → P p.1 → P (((λ _. p) >> pure false) m).1
      unprocessed (ok u, m') h = h
      unprocessed (raised e, m') h = h

  write_to_P :
      (item : Item) (d z : String) (bs : List (String × H.Instance)) (m : Manager H)
      → P m
      → P (write_to H item d z bs m).1
  write_to_P item d z [] m h = acknowledged m h
  write_to_P item d z (b ∷ bs) m h =
      let (failed, m') = process_backends H (b ∷ bs) d z m in
      done (conclude H item d z failed m') (concluded item d z failed m' (written (b ∷ bs) d z m h))
    where
      done :
          (p : Result Bool × Manager H)
          → P p.1
          → P (((λ _. p) >>= λ processed. task_done H >> pure processed) m).1
      done (ok processed, m') h = acknowledged m' h
      done (raised e, m') h = h

  write_item_P :
      (item : Item) (d z : Option String) (m : Manager H) → P m → P (write_item H item d z m).1
  write_item_P item none z m h = acknowledged m h
  write_item_P item (some d) none m h = acknowledged m h
  write_item_P item (some d) (some z) m h =
      write_to_P item d z (targets item.failed_backends m.backends) m h

  pub process_item_keeps :
      (item : Item) (m : Manager H) → P (index_zone H item m).1 → P (process_item H item m).1
  unfolding process_item
  process_item_keeps item m h = followed (index_zone H item m) h
    where
      followed :
          (p : Result Bool × Manager H)
          → P p.1
          → P (((λ _. p) >> write_item H item item.domain item.zone_file) m).1
      followed (ok b, m') h = write_item_P item item.domain item.zone_file m' h
      followed (raised e, m') h = h

module _ (H : Host) (poll : String → Result (Option (List String))) (servers : List Server)
    (dry : Bool) (m : Manager H) where
  -- The pass up to the commit of what the comparison changed
  abbrev pub compared : Result Bool × Manager H
  compared = commit_rows H poll servers dry (progress H poll servers dry m) m

  -- A pass ends with its commit if that raises, and with the healing otherwise.
  pass_end :
      ((reconcile_all H poll servers dry m).1 ≡ compared.1)
      ⊎ ((reconcile_all H poll servers dry m).1 ≡ (heal_backends H dry compared.1).1)
  unfolding reconcile_all
  pass_end = ground arith

  pub reconcile_all_keeps :
      (P : Manager H → Type 0)
      → P compared.1
      → ((m' : Manager H) → P m' → P (heal_backends H dry m').1)
      → P (reconcile_all H poll servers dry m).1
  reconcile_all_keeps P after healed = elim pass_end [
    | inl e ↦ subst P (sym e) after
    | inr e ↦ subst P (sym e) (healed compared.1 after)
  ]
