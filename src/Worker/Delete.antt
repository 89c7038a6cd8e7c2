-- ===== src/Worker/Delete.antt =====
-- directdnsonly/worker.py: the delete queue worker.
pub mod Ownership
pub mod Gone
pub mod Stale
use mathlib.Core.Bool.{◌&&◌}
use directdnsonly.Base.{
  String, Bool, not, Option, none, some, ltb, if◌then◌else◌, ◌==◌, string_eq, option_eq, truthy?,
  all_of, length,
}
use directdnsonly.Base.Exec.{Exec, Result, ok, raised, other}
use directdnsonly.Database.{Domain}
use directdnsonly.Worker.State.{Item, Host, Manager}
use directdnsonly.Worker.Backends.{delete_single_backend, on_each, put_back}
use directdnsonly.Worker.Save.{domain_names}

-- `item.get("hostname", "")`
abbrev pub or_empty : Option String → String
or_empty none = ""
or_empty (some s) = s

-- What became of an item.
pub data Deletion : Type 0 where
  not_found : Deletion
  rejected : Deletion
  retained : Deletion
  deleted : Deletion

-- The row is owned by another host than the one that asks.
abbrev pub is_foreign : Domain → Item → Bool
is_foreign r item = truthy? r.hostname && not (r.hostname == some (or_empty item.hostname))

-- `session.execute(select(Domain).filter_by(domain=domain)).scalar_one_or_none()`: a row that the
-- session holds already is not refreshed by the query.
abbrev pub session_row : String → Option Domain → Option Domain → Option Domain
session_row domain held none = none
session_row domain none (some r) = some r
session_row domain (some h) (some r) = if h.domain == domain then some h else some r

module _ (H : Host) where
  open H use {database, queues, backend, as_completed}

  abbrev acknowledge : Deletion → Exec (Manager H) Deletion
  acknowledge d m = (ok d, record m { delete_queue = queues.task_done m.delete_queue })

  -- The calls on every backend: whether all succeeded, and the manager with their instances.
  unfoldable pub delete_from_backends : String → Manager H → Bool × Manager H
  delete_from_backends domain m =
      let (results, after) =
        on_each (delete_single_backend backend domain (domain_names H m.table)) m.backends in
      (
        all_of (λ r. r.1) (if ltb 1 (length m.backends) then as_completed results else results),
        record m { backends = put_back after m.backends },
      )

  abbrev drop_record : String → Exec (Manager H) Deletion
  drop_record domain m = elim (database.remove domain m.table) [
    | none ↦ (raised other, record m { session_record = none })
    | some t ↦ acknowledge deleted (record m { table = t; session_record = none })
  ]

  unfoldable pub delete_named : Item → String → Exec (Manager H) Deletion
  delete_named item domain m =
      elim (session_row domain m.session_record (database.find domain m.table)) [
        | none ↦ acknowledge not_found (record m { session_record = none })
        | some r ↦
            let m1 = record m { session_record = some r } in
            if is_foreign r item
            then acknowledge rejected m1
            else (let (success, m') = delete_from_backends domain m1 in
                if success then drop_record domain m' else acknowledge retained m')
      ]

  -- The body of the `try` of `_process_delete_queue`, after `get`.
  unfoldable pub delete_item : Item → Exec (Manager H) Deletion
  unfolding delete_named
  delete_item item m = elim item.domain [
    | none ↦ acknowledge not_found (record m { session_record = none })
    | some domain ↦ delete_named item domain m
  ]

  -- One round of the loop: `none` where the queue is empty. An exception is logged and dropped.
  unfoldable pub delete_round : Manager H → Option (Result Deletion × Manager H)
  unfolding delete_item
  delete_round m = elim (queues.get_nowait m.delete_queue) [
    | none ↦ none
    | some (item, q) ↦ some (delete_item item (record m { delete_queue = q }))
  ]
