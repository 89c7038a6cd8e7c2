-- ===== src/Worker/Save/Outcome.antt =====
-- What the save worker does with one item, from the index to the stored zone or the retry.
use mathlib.Core.Path.{subst}
use directdnsonly.Base.{
  String, ◌≡◌, refl, ◌∙◌, sym, ap, Bool, true, false, some, List, [], ◌∷◌, arith, if◌then◌else◌,
  ◌==◌, string_eq, option_eq, contains, Option-cases, inl, inr,
}
use directdnsonly.Base.Exec.{Result, ok, >>=-eq_ok}
use directdnsonly.Database.{Domain, IsReliable}
use directdnsonly.Index.{register}
use directdnsonly.Database.Rows.{find-domain}
use directdnsonly.Index.Ownership.{Registered, register_lem}
use directdnsonly.Worker.State.{Item, Host, IsHost, Manager}
use directdnsonly.Worker.Backends.{targets}
use directdnsonly.Worker.Backends.Outcomes.{AllSucceed, reports_failure}
use directdnsonly.Worker.Save.{
  is_retry, index_zone, store_zone_data, process_backends, conclude, write_to, write_item,
  process_item,
}
use directdnsonly.Worker.Save.Writes.{write_call, contains-process_backends}

nil_of_contains : (xs : List String) → ((n : String) → contains xs n ≡ false) → xs ≡ []
nil_of_contains [] h = refl
nil_of_contains (x ∷ xs) h = ground (arith, h x)

reports_failure-AllSucceed :
    {S : Type 0} (f : S → Bool × S) (n : String) (bs : List (String × S))
    → AllSucceed f bs
    → reports_failure f n bs ≡ false
reports_failure-AllSucceed f n [] h = refl
reports_failure-AllSucceed f n ((k, s) ∷ rest) h =
    ground (arith, reports_failure-AllSucceed f n rest h.1)

-- How a run ends that has stored a zone: processed, with nothing retried and no dead letter; the
-- zone's row is owned by the host of the item and keeps the zone file, and no other row changes.
abbrev pub Stored :
    (H : Host) → Item → String → String → Manager H → Result Bool × Manager H → Type 0
Stored H item d z m (r, m') =
    (r ≡ ok true)
    × (m'.retry_queue ≡ m.retry_queue)
    × (m'.dead_letter_count ≡ m.dead_letter_count)
    × (row : Domain) × (row.hostname ≡ item.hostname)
    × (row.zone_data ≡ some z)
    × ((k : String)
        → H.database.find k m'.table ≡ (if k == d then some row else H.database.find k m.table))

module _ (H : Host) (L : IsHost H) where
  open H use {database, queues}

  failed_nil :
      (bs : List (String × H.Instance)) (d z : String) (m : Manager H)
      → AllSucceed (write_call H d z m.table) bs
      → (process_backends H bs d z m).0 ≡ []
  failed_nil bs d z m h = nil_of_contains _ λ n.
      contains-process_backends H L bs d z m n
      ∙ reports_failure-AllSucceed (write_call H d z m.table) n bs h

  store_zone_data-find :
      (d z : String) (m : Manager H) (r : Domain)
      → IsReliable database
      → database.find d m.table ≡ some r
      → (k : String)
      → database.find k (store_zone_data H d z m).table ≡ (
          if k == r.domain
          then some (record r { zone_data = some z; zone_updated_at = some (H.utcnow m.reads) })
          else database.find k m.table)
  unfolding store_zone_data
  store_zone_data-find d z m r R found k =
      let new : Domain = record r {
        zone_data = some z;
        zone_updated_at = some (H.utcnow m.reads);
      } in
      elim (Option-cases (database.save (new ∷ []) m.table)) [
        | inl lost ↦ absurd (R.save_succeeds (new ∷ []) m.table lost)
        | inr (t, saved) ↦
            rw (found, store_zone_data)
              (rw saved (L.database.find-save (new ∷ []) m.table t saved k ∙ ground arith))
      ]

  pub store_zone_data_keeps :
      (d z : String) (m : Manager H)
      → let m' = store_zone_data H d z m in
        (m'.retry_queue ≡ m.retry_queue)
        × (m'.dead_letter_count ≡ m.dead_letter_count)
        × (m'.backends ≡ m.backends)
  unfolding store_zone_data
  store_zone_data_keeps d z m = ground arith

  -- The index step of a push changes the table alone, and registers the zone.
  index_zone_lem :
      (item : Item) (m : Manager H) (d : String)
      → IsReliable database
      → is_retry item ≡ false
      → item.domain ≡ some d
      → (t : database.Table) × (index_zone H item m ≡ (ok true, record m { table = t }))
        × Registered database d item.hostname m.table t
  unfolding index_zone
  index_zone_lem item m d R push named =
      let (t, e, g) = register_lem database L.database R d item.hostname item.username m.table in
      (t, rw (push, named, index_zone) (rw e), g)

  Registered-at :
      (item : Item) (m : Manager H) (d : String) {t : database.Table}
      → IsReliable database
      → register database d item.hostname item.username m.table ≡ (ok true, t)
      → Registered database d item.hostname m.table t
  Registered-at item m d R e =
      let (u, e', g) = register_lem database L.database R d item.hostname item.username m.table in
      subst (λ v. Registered database d item.hostname m.table v)
        (ap (λ (p : Result Bool × database.Table). p.1) (sym e' ∙ e)) g

  process_backends_keeps :
      (bs : List (String × H.Instance)) (d z : String) (m : Manager H)
      → let m' = (process_backends H bs d z m).1 in
        (m'.table ≡ m.table)
        × (m'.retry_queue ≡ m.retry_queue)
        × (m'.reads ≡ m.reads)
        × (m'.dead_letter_count ≡ m.dead_letter_count)
  unfolding process_backends
  process_backends_keeps bs d z m = (refl, refl, refl, refl)

  -- The run of an item whose index step went well and that has a target.
  pub process_item_run :
      (item : Item) (m m' : Manager H) (d z : String) {b : String × H.Instance}
      {bs : List (String × H.Instance)}
      → index_zone H item m ≡ (ok true, m')
      → item.domain ≡ some d
      → item.zone_file ≡ some z
      → targets item.failed_backends m'.backends ≡ b ∷ bs
      → process_item H item m ≡ write_to H item d z (b ∷ bs) m'
  unfolding process_item
  process_item_run item m m' d z indexed named filed aimed =
      >>=-eq_ok (index_zone H item) (λ (_ : Bool). write_item H item item.domain item.zone_file)
        indexed
      ∙ rw (named, filed) (rw aimed)

  write_to_success :
      (item : Item) (m : Manager H) (d z : String) (b : String × H.Instance)
      (bs : List (String × H.Instance))
      → AllSucceed (write_call H d z m.table) (b ∷ bs)
      → let m' = store_zone_data H d z (process_backends H (b ∷ bs) d z m).1 in
        write_to H item d z (b ∷ bs) m
        ≡ (ok true, record m' { save_queue = queues.task_done m'.save_queue })
  unfolding conclude
  write_to_success item m d z b bs h = rw (failed_nil (b ∷ bs) d z m h)

  -- A push whose every target takes the zone: it is processed, its row is owned by the host that
  -- pushed it and keeps the zone file, no other row changes, and nothing is retried.
  pub process_item-Stored :
      (item : Item) (m : Manager H) (d z : String) {t : database.Table} {b : String × H.Instance}
      {bs : List (String × H.Instance)}
      → IsReliable database
      → is_retry item ≡ false
      → item.domain ≡ some d
      → item.zone_file ≡ some z
      → targets item.failed_backends m.backends ≡ b ∷ bs
      → register database d item.hostname item.username m.table ≡ (ok true, t)
      → AllSucceed (write_call H d z t) (b ∷ bs)
      → Stored H item d z m (process_item H item m)
  unfolding process_backends
  process_item-Stored item m d z {t} {b} {bs} R push named filed aimed registered success =
      let m0 : Manager H = record m { table = t } in
      let m1 : Manager H = (process_backends H (b ∷ bs) d z m0).1 in
      let indexed : index_zone H item m ≡ (ok true, m0) =
        unfold index_zone in rw (push, named) (rw registered) in
      let run =
        process_item_run item m m0 d z indexed named filed aimed
        ∙ write_to_success item m0 d z b bs success in
      let (r, owned, rows) = Registered-at item m d R registered in
      let found : database.find d t ≡ some r = ground (arith, rows d) in
      let named_row = find-domain L.database d t found in
      rw run (
        refl,
        ground (arith, store_zone_data_keeps d z m1, process_backends_keeps (b ∷ bs) d z m0),
        ground (arith, store_zone_data_keeps d z m1, process_backends_keeps (b ∷ bs) d z m0),
        record r { zone_data = some z; zone_updated_at = some (H.utcnow m.reads) },
        owned,
        refl,
        λ k. ground (arith, store_zone_data-find d z m1 r R found k, named_row, rows k),
      )
