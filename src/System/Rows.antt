-- ===== src/System/Rows.antt =====
-- Only the delete worker drops a row, and only for the owner.
use mathlib.Core.Path.{subst}
use mathlib.Core.Option.{some-injective}
use directdnsonly.Base.{
  String, ◌≡◌, refl, sym, ap, ◌∙◌, Bool, true, false, Option, none, some, List, [], ◌∷◌,
  if◌then◌else◌, ◌==◌, ==_iff, string_eq, option_eq, nat_eq, inl, inr, ◌⊎◌, Bool-cases,
  Option-cases, arith,
}
use directdnsonly.Base.Exec.{Result, ok, raised}
use directdnsonly.Database.{Domain}
use directdnsonly.Index.{register}
use directdnsonly.Worker.State.{Item, Host, IsHost, Manager, on_table}
use directdnsonly.Worker.Retry.{schedule_retry, retry_round}
use directdnsonly.Worker.Retry.Schedule.{schedule_retry_keeps}
use directdnsonly.Worker.Retry.Drain.{retry_round_lem}
use directdnsonly.Worker.Save.{
  or_unknown, is_retry, index_zone, process_item, process_backends, store_zone_data,
}
use directdnsonly.Worker.Delete.{
  Deletion, not_found, rejected, retained, deleted, or_empty, session_row, delete_item,
}
use directdnsonly.Worker.Delete.Ownership.{IsOwnedBy, delete_item-deleted, delete_item_keeps}
use directdnsonly.Reconciler.Poll.{Server}
use directdnsonly.Reconciler.Heal.{heal_backends}
use directdnsonly.Reconciler.Heal.Items.{heal_backends_keeps}
use directdnsonly.Reconciler.Pass.{progress, commit_rows, reconcile_all}
use directdnsonly.PeerSync.Zones.{sync_from_peer}
use directdnsonly.Admin.{Request, Answer, answer_post}
use directdnsonly.System.{Step, handles, saves, deletes, drains, reconciles, syncs}
use directdnsonly.System.Items.{handle_post_cases}
use directdnsonly.System.Parts.{process_item_keeps, compared, reconcile_all_keeps}
use directdnsonly.System.Stays.{has_row, Stays, save-Stays, register-Stays, sync-Stays}

module _ (H : Host) (L : IsHost H) (k : String) where
  open H use {database, queues}

  abbrev Keeps : Manager H → Manager H → Type 0
  Keeps m m' = Stays L.database k m.table m'.table

  same-Keeps : (m m' : Manager H) → m'.table ≡ m.table → Keeps m m'
  same-Keeps m m' e h = subst (λ t. has_row (database.find k t) ≡ true) (sym e) h

  store-Keeps : (d z : String) (m : Manager H) → Keeps m (store_zone_data H d z m)
  unfolding store_zone_data
  store-Keeps d z m h = elim (Option-cases (database.find d m.table)) [
    | inl e ↦ rw (store_zone_data, e) h
    | inr (r, e) ↦
        let stored : Domain = record r {
          zone_data = some z;
          zone_updated_at = some (H.utcnow m.reads);
        } in
        elim (Option-cases (database.save (stored ∷ []) m.table)) [
          | inl f ↦ rw (store_zone_data, e, f) h
          | inr (u, f) ↦
              rw (store_zone_data, e, f) (save-Stays L.database k (stored ∷ []) m.table u f h)
        ]
  ]

  written_table :
      (bs : List (String × H.Instance)) (d z : String) (m : Manager H)
      → (process_backends H bs d z m).1.table ≡ m.table
  unfolding process_backends
  written_table bs d z m = refl

  index-Keeps : (item : Item) (m : Manager H) → Keeps m (index_zone H item m).1
  unfolding index_zone
  index-Keeps item m h =
      elim (is_retry item)
        as (λ b.
          has_row (
            database.find k
              (if b
                then (ok true, m)
                else on_table
                    (register database (or_unknown item.domain) item.hostname item.username)
                    m).1.table)
          ≡ true) [
            | true ↦ h
            | false ↦
                register-Stays L.database k (or_unknown item.domain) item.hostname item.username
                  m.table h
          ]

  -- The table has a row of the name.
  abbrev Has : Manager H → Type 0
  Has m = has_row (database.find k m.table) ≡ true

  process_item-Keeps : (item : Item) (m : Manager H) → Keeps m (process_item H item m).1
  process_item-Keeps item m h =
      process_item_keeps H Has
        (λ bs d z m. same-Keeps m (process_backends H bs d z m).1 (written_table bs d z m))
        store-Keeps
        (λ item failed m.
          same-Keeps m (schedule_retry H item failed m).1 (schedule_retry_keeps H item failed m).0)
        (λ m h. h) item m (index-Keeps item m h)

  module _ (poll : String → Result (Option (List String))) (servers : List Server) (dry : Bool)
      (m : Manager H) where
    saved_rows : List Domain
    saved_rows = (progress H poll servers dry m).dirty

    compared_table :
        ((compared H poll servers dry m).1.table ≡ m.table)
        ⊎ (database.save saved_rows m.table ≡ some (compared H poll servers dry m).1.table)
    unfolding commit_rows saved_rows
    compared_table = ground arith

    pass-Keeps : Keeps m (reconcile_all H poll servers dry m).1
    pass-Keeps h =
        reconcile_all_keeps H poll servers dry m Has
          (elim compared_table [
            | inl e ↦ same-Keeps m (compared H poll servers dry m).1 e h
            | inr e ↦ save-Stays L.database k saved_rows m.table _ e h
          ])
          (λ m'. same-Keeps m' (heal_backends H dry m').1 (heal_backends_keeps H dry m').0)

  -- A delete that does not end as a deletion leaves the table as it is.
  delete_cases :
      (item : Item) (m : Manager H)
      → ((delete_item H item m).0 ≡ ok deleted) ⊎ ((delete_item H item m).1.table ≡ m.table)
  delete_cases item m = ended (delete_item H item m).0 refl
    where
      ended :
          (r : Result Deletion)
          → (delete_item H item m).0 ≡ r
          → ((delete_item H item m).0 ≡ ok deleted) ⊎ ((delete_item H item m).1.table ≡ m.table)
      ended (ok deleted) e = inl e
      ended (ok not_found) e = inr (delete_item_keeps H L item m (λ h. absurd (cc (e, h))))
      ended (ok rejected) e = inr (delete_item_keeps H L item m (λ h. absurd (cc (e, h))))
      ended (ok retained) e = inr (delete_item_keeps H L item m (λ h. absurd (cc (e, h))))
      ended (raised x) e = inr (delete_item_keeps H L item m (λ h. absurd (cc (e, h))))

  nameless_table :
      (item : Item) (m : Manager H) → item.domain ≡ none → (delete_item H item m).1.table ≡ m.table
  unfolding delete_item
  nameless_table item m nameless = rw nameless

  -- The session of the delete worker reads the row as one without an owner or of the item's host.
  abbrev pub IsOwned : Item → Manager H → Type 0
  IsOwned item m =
      (r : Domain) × (session_row k m.session_record (database.find k m.table) ≡ some r)
      × IsOwnedBy (or_empty item.hostname) r

  delete_item-IsOwned :
      (item : Item) (m : Manager H) (r : Domain)
      → database.find k m.table ≡ some r
      → has_row (database.find k (delete_item H item m).1.table) ≡ false
      → (item.domain ≡ some k) × IsOwned item m
  delete_item-IsOwned item m r found gone = elim (delete_cases item m) [
    | inr same ↦ absurd (ground (arith, found, gone, same))
    | inl done ↦ elim (Option-cases item.domain) [
      | inl nameless ↦ absurd (ground (arith, found, gone, nameless_table item m nameless))
      | inr (d, named) ↦
          let (there_was, r', read, owner, all, law) =
            delete_item-deleted H L item m d named done in
          elim (Bool-cases (k == d)) [
            | inl same ↦
                let e = (==_iff k d).0 same in
                (
                  named ∙ ap some (sym e),
                  (
                    r',
                    ap (λ x. session_row x m.session_record (database.find x m.table)) e ∙ read,
                    owner,
                  ),
                )
            | inr apart ↦ absurd (ground (arith, found, gone, law k, apart))
          ]
    ]
  ]

  -- A delete of the name waits first on the queue, for the host that owns the row as the worker reads
  -- it.
  abbrev pub Dropped : Manager H → Type 0
  Dropped m =
      (item : Item) × (q : queues.Queue) × (queues.get_nowait m.delete_queue ≡ some (item, q))
      × (item.domain ≡ some k)
      × IsOwned item m

  -- Steps that keep the row drop nothing.
  kept_row :
      (m m' : Manager H) (r : Domain)
      → Keeps m m'
      → database.find k m.table ≡ some r
      → has_row (database.find k m'.table) ≡ false
      → Dropped m
  kept_row m m' r keeps found gone = absurd (cc (keeps (ap has_row found), gone))

  answer-Keeps : (x : Request) (m : Manager H) → Keeps m (answer_post H x m).1
  unfolding answer_post
  answer-Keeps x m =
      handle_post_cases H (λ (p : Result Answer × Manager H). Keeps m p.1) m (λ a h. h)
        (λ d z params h. h) (λ d params h. h) x

  retry_round-Keeps : (m m' : Manager H) → retry_round H m ≡ some m' → Keeps m m'
  retry_round-Keeps m m' e =
      let (next, e', waits, goes, same, b, d, n, v) = retry_round_lem H L.queues m in
      same-Keeps m m' (ap (λ (x : Manager H). x.table) (some-injective _ _ (sym e ∙ e')) ∙ same)

  -- If the host keeps its assumptions, a row of the table is gone after a step only if a delete of that
  -- name was first on the delete queue, and the row, as the session of the delete worker reads it, had no
  -- owner or the host that the item names.
  pub Step-Dropped :
      (m m' : Manager H) (r : Domain)
      → Step H m m'
      → database.find k m.table ≡ some r
      → has_row (database.find k m'.table) ≡ false
      → Dropped m
  Step-Dropped _ m' r (deletes m item q e) found gone =
      let (named, owner) = delete_item-IsOwned item (record m { delete_queue = q }) r found gone in
      (item, q, e, named, owner)
  Step-Dropped _ m' r (handles x m) found gone =
      kept_row m (answer_post H x m).1 r (answer-Keeps x m) found gone
  Step-Dropped _ m' r (saves m item q e) found gone =
      kept_row m (process_item H item (record m { save_queue = q })).1 r
        (process_item-Keeps item (record m { save_queue = q })) found gone
  Step-Dropped _ _ r (drains m m' e) found gone =
      kept_row m m' r (retry_round-Keeps m m' e) found gone
  Step-Dropped _ m' r (reconciles poll servers dry m) found gone =
      kept_row m (reconcile_all H poll servers dry m).1 r (pass-Keeps poll servers dry m) found gone
  Step-Dropped _ m' r (syncs peer m) found gone =
      kept_row m (record m { table = (sync_from_peer database peer m.table).1 }) r
        (sync-Stays L.database k peer m.table) found gone
