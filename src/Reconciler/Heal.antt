-- ===== src/Reconciler/Heal.antt =====
-- directdnsonly/app/reconciler.py: the healing pass.
pub mod Items
use directdnsonly.Base.{
  ℕ, zero, ◌+◌, String, Bool, true, false, Option, none, some, List, [], ◌∷◌, if◌then◌else◌,
}
use directdnsonly.Base.Exec.{Result, ok, raised}
use directdnsonly.Database.{Domain}
use directdnsonly.Worker.State.{Item, Host, Manager}

abbrev or_blank : Option String → String
or_blank none = ""
or_blank (some s) = s

unfoldable pub heal_item : Domain → String → List String → Item
heal_item r zone_data missing = record {
  domain = some r.domain;
  zone_file = some zone_data;
  hostname = some (or_blank r.hostname);
  username = some (or_blank r.username);
  source = some "reconciler_heal";
  failed_backends = some missing;
  retry_count = some 0;
  retry_after = none;
}

module _ (H : Host) where
  open H use {database, queues, backend}

  -- The names of the backends that lack the zone, and the instances after the checks. A check that
  -- raises counts as present.
  unfoldable pub missing_from :
      String → List (String × H.Instance) → List String × List (String × H.Instance)
  missing_from domain [] = ([], [])
  missing_from domain ((name, s) ∷ rest) =
      let (r, s') = backend.zone_exists domain s in
      let (missing, after) = missing_from domain rest in
      (
        elim r [ ok present ↦ (if present then missing else name ∷ missing) | raised e ↦ missing ],
        (name, s') ∷ after,
      )

  -- One row of the pass: the manager, and whether an item was queued.
  abbrev pub queue_heal : Bool → Domain → String → List String → Manager H → ℕ × Manager H
  queue_heal dry_run r zone_data [] m = (0, m)
  queue_heal dry_run r zone_data (n ∷ ns) m =
      if dry_run
      then (0, m)
      else (1, record m { save_queue = queues.put (heal_item r zone_data (n ∷ ns)) m.save_queue })

  -- A row without zone data is not in the query.
  unfoldable pub heal_row : Bool → Domain → Option String → Manager H → ℕ × Manager H
  heal_row dry_run r none m = (0, m)
  heal_row dry_run r (some zone_data) m =
      let (missing, after) = missing_from r.domain m.backends in
      queue_heal dry_run r zone_data missing (record m { backends = after })

  unfoldable pub heal_rows : Bool → List Domain → Manager H → ℕ × Manager H
  heal_rows dry_run [] m = (0, m)
  heal_rows dry_run (r ∷ rows) m =
      let (n, m') = heal_row dry_run r r.zone_data m in
      let (k, m'') = heal_rows dry_run rows m' in (n + k, m'')

  -- `_heal_backends`
  unfoldable pub heal_backends : Bool → Manager H → ℕ × Manager H
  heal_backends dry_run m = elim m.backends [
    | [] ↦ (0, m)
    | b ∷ bs ↦ heal_rows dry_run (database.all m.table) m
  ]
