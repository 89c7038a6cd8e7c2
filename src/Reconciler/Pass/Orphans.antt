-- ===== src/Reconciler/Pass/Orphans.antt =====
-- The deletes that a pass queues.
use mathlib.Core.List.{Mem, mem-cons_self, mem-cons_of_mem, mem-append}
use mathlib.Core.Logic.Or
use directdnsonly.Base.{
  String, ◌≡◌, ◌≢◌, refl, sym, ◌∙◌, Bool, true, false, Option, none, some, List, [], ◌∷◌, ◌++◌,
  if◌then◌else◌, string_eq, option_eq, contains, arith,
}
use directdnsonly.Base.Exec.{Result, ok}
use directdnsonly.Database.{Domain, row}
use directdnsonly.Database.Rows.{find-domain}
use directdnsonly.Worker.State.{Item, Host, IsHost, Manager}
use directdnsonly.Worker.Delete.{is_foreign}
use directdnsonly.Reconciler.Poll.{Server, poll_all}
use directdnsonly.Reconciler.Poll.Reporters.{lists, last_reporter, reporter, master_of-poll_all}
use directdnsonly.Reconciler.Compare.{known_servers, orphan_item, Progress}
use directdnsonly.Reconciler.Compare.Orphans.{orphan_items, items-compare_rows}
use directdnsonly.Reconciler.Heal.Items.{heal_backends_keeps}
use directdnsonly.Reconciler.Pass.{progress, commit_rows, reconcile_all}

-- Some server of the configuration lists the domain.
abbrev pub listed : (String → Result (Option (List String))) → List Server → String → Bool
listed poll servers d = elim (last_reporter poll d servers) [ none ↦ false | some h ↦ true ]

-- The deletes that are due by the servers' answers: of each row that no server lists, if its
-- recorded host is configured.
abbrev pub due_deletes :
    (String → Result (Option (List String))) → List Server → List Domain → List Item
due_deletes poll servers [] = []
due_deletes poll servers (r ∷ rows) =
    let rest = due_deletes poll servers rows in
    if listed poll servers r.domain
    then rest
    else if contains (known_servers servers) r.hostname
    then orphan_item r ∷ rest
    else rest

module _ (poll : String → Result (Option (List String))) (servers : List Server) where
  orphan_items-live :
      (rows : List Domain)
      → orphan_items (known_servers servers) (poll_all poll servers).all_da_domains false rows
        ≡ due_deletes poll servers rows
  orphan_items-live [] = refl
  orphan_items-live (r ∷ rows) =
      ground (arith, orphan_items-live rows, master_of-poll_all poll r.domain servers)

  orphan_items-dry :
      (rows : List Domain)
      → orphan_items (known_servers servers) (poll_all poll servers).all_da_domains true rows ≡ []
  orphan_items-dry [] = refl
  orphan_items-dry (r ∷ rows) = orphan_items-dry rows

  last_reporter-silent :
      (d : String)
      → ((g : String) → lists d (poll g) ≡ false)
      → (ss : List Server) → last_reporter poll d ss ≡ none
  last_reporter-silent d h [] = refl
  last_reporter-silent d h (s ∷ ss) = rw (last_reporter-silent d h ss) (no_report s.hostname)
    where
      no_report : (o : Option String) → reporter poll d o ≡ none
      no_report none = refl
      no_report (some g) = ground (arith, h g)

  mem_longer :
      {i : Item} (j : Item) {is : List Item} (a b : Bool)
      → Mem i is
      → Mem i (if a then is else if b then j ∷ is else is)
  mem_longer j true b h = h
  mem_longer j false true h = mem-cons_of_mem _ h
  mem_longer j false false h = h

  due_deletes-mem :
      (r : Domain) (d : String) (rows : List Domain)
      → row d rows ≡ some r
      → listed poll servers r.domain ≡ false
      → contains (known_servers servers) r.hostname ≡ true
      → Mem (orphan_item r) (due_deletes poll servers rows)
  due_deletes-mem r d [] h u k = absurd (cc (h))
  due_deletes-mem r d (s ∷ rows) h u k = elim (string_eq.dec d s.domain) [
    | yes p ↦ let same : s ≡ r = ground arith in rw same (rw (u, k) mem-cons_self)
    | no p ↦ mem_longer (orphan_item s) _ _ (due_deletes-mem r d rows (ground arith) u k)
  ]

  module _ (H : Host) (L : IsHost H) (m : Manager H) where
    open H use {database, queues}

    deletes :
        (dry_run : Bool)
        → queues.items (progress H poll servers dry_run m).delete_queue
          ≡ queues.items m.delete_queue
            ++ (if dry_run then [] else due_deletes poll servers (database.all m.table))
    unfolding progress
    deletes true =
        items-compare_rows queues L.queues true (known_servers servers) _ (database.all m.table) _
        ∙ rw (orphan_items-dry (database.all m.table))
    deletes false =
        items-compare_rows queues L.queues false (known_servers servers) _ (database.all m.table) _
        ∙ rw (orphan_items-live (database.all m.table))

    commit_rows_queue :
        (dry_run : Bool) (p : Progress queues)
        → (commit_rows H poll servers dry_run p m).1.delete_queue ≡ p.delete_queue
    unfolding commit_rows
    commit_rows_queue dry_run p = ground arith

    -- If the host keeps its assumptions, a pass queues exactly the due deletes, behind what waits, whether or not its commit raises;
    -- a dry run queues none.
    pub delete_queue-reconcile_all :
        (dry_run : Bool)
        → queues.items (reconcile_all H poll servers dry_run m).1.delete_queue
          ≡ queues.items m.delete_queue
            ++ (if dry_run then [] else due_deletes poll servers (database.all m.table))
    unfolding reconcile_all
    delete_queue-reconcile_all dry_run =
        let p = progress H poll servers dry_run m in
        let m' = (commit_rows H poll servers dry_run p m).1 in
        ground
          (arith, deletes dry_run, commit_rows_queue dry_run p, heal_backends_keeps H dry_run m')

    -- If the host keeps its assumptions, a server of the configuration that cannot be reached, or answers with an error, does not
    -- protect its zones: a row that it owns and that no other server lists is queued for deletion
    -- in a live pass, and the delete worker will accept the item as coming from the owner.
    pub unreachable_master_queued :
        (d h : String) (r : Domain)
        → database.find d m.table ≡ some r
        → r.hostname ≡ some h
        → contains (known_servers servers) (some h) ≡ true
        → poll h ≡ ok none
        → ((g : String) → g ≢ h → lists d (poll g) ≡ false)
        → Mem (orphan_item r) (queues.items (reconcile_all H poll servers false m).1.delete_queue)
          × (is_foreign r (orphan_item r) ≡ false)
    unfolding orphan_item
    unreachable_master_queued d h r found owned known down others =
        let silent : (g : String) → lists d (poll g) ≡ false =
          λ g. elim (string_eq.dec g h) [ yes p ↦ rw (p, down) | no p ↦ others g p ] in
        let named : r.domain ≡ d = find-domain L.database d m.table found in
        let unlisted : listed poll servers r.domain ≡ false =
          rw named (rw (last_reporter-silent d silent servers, listed)) in
        (
          rw (delete_queue-reconcile_all false) (
              mem-append.1 (
                Or.inr (
                  due_deletes-mem r d (database.all m.table)
                    (sym (L.database.find-all d m.table) ∙ found) unlisted (rw owned known)))),
          ground arith,
        )
