-- ===== src/Reconciler/Compare/Orphans.antt =====
-- Which deletes the comparison queues.
use mathlib.Core.List.{append-nil, append_assoc}
use directdnsonly.Base.{
  ℕ, ◌+◌, String, ◌≡◌, ◌∙◌, Bool, true, false, ◌&&◌, Option, none, some, List, [], ◌∷◌, ◌++◌,
  if◌then◌else◌, string_eq, option_eq, contains, arith,
}
use directdnsonly.Database.{Domain}
use directdnsonly.Queue.{Queues, IsFifo}
use directdnsonly.Worker.State.{Item}
use directdnsonly.Reconciler.Poll.{DomainMap, master_of}
use directdnsonly.Reconciler.Compare.{verdict, orphan_item, Progress, act, compare_rows}

abbrev pub is_none : {A : Type 0} → Option A → Bool
is_none none = true
is_none (some a) = false

-- No server lists the row's domain, and its recorded host is configured.
abbrev pub is_orphan : List (Option String) → Option String → Domain → Bool
is_orphan known actual r = is_none actual && contains known r.hostname

module _ (known : List (Option String)) where
  abbrev queued_for : Bool → Option String → Domain → List Item
  queued_for dry_run actual r =
      if dry_run then [] else if is_orphan known actual r then orphan_item r ∷ [] else []

  module _ (all : DomainMap) where
    -- The deletes of a list of rows, in its order; a dry run has none.
    abbrev pub orphan_items : Bool → List Domain → List Item
    orphan_items dry_run [] = []
    orphan_items dry_run (r ∷ rows) =
        queued_for dry_run (master_of r.domain all) r ++ orphan_items dry_run rows

    abbrev pub count_orphans : List Domain → ℕ
    count_orphans [] = 0
    count_orphans (r ∷ rows) =
        (if is_orphan known (master_of r.domain all) r then 1 else 0) + count_orphans rows

module _ (Q : Queues Item) (F : IsFifo Q) (dry_run : Bool) (known : List (Option String)) where
  items-act :
      (actual : Option String) (r : Domain) (p : Progress Q)
      → Q.items (act Q dry_run r (verdict known actual r) p).delete_queue
        ≡ Q.items p.delete_queue ++ queued_for known dry_run actual r
  unfolding act verdict
  items-act actual r p =
      ground
        (arith, append-nil (Q.items p.delete_queue), F.items-put (orphan_item r) p.delete_queue)

  count-act :
      (actual : Option String) (r : Domain) (p : Progress Q)
      → (act Q dry_run r (verdict known actual r) p).total_queued
        ≡ p.total_queued + (if is_orphan known actual r then 1 else 0)
  unfolding act verdict
  count-act actual r p = ground arith

  module _ (all : DomainMap) where
    pub items-compare_rows :
        (rows : List Domain) (p : Progress Q)
        → Q.items (compare_rows Q dry_run known all rows p).delete_queue
          ≡ Q.items p.delete_queue ++ orphan_items known all dry_run rows
    unfolding compare_rows
    items-compare_rows [] p = rw append-nil
    items-compare_rows (r ∷ rows) p =
        items-compare_rows rows (act Q dry_run r (verdict known (master_of r.domain all) r) p)
        ∙ rw (items-act (master_of r.domain all) r p) (
            append_assoc (Q.items p.delete_queue)
              (queued_for known dry_run (master_of r.domain all) r)
              (orphan_items known all dry_run rows))

    pub count-compare_rows :
        (rows : List Domain) (p : Progress Q)
        → (compare_rows Q dry_run known all rows p).total_queued
          ≡ p.total_queued + count_orphans known all rows
    unfolding compare_rows
    count-compare_rows [] p = omega arith
    count-compare_rows (r ∷ rows) p = omega (
      arith,
      count-compare_rows rows (act Q dry_run r (verdict known (master_of r.domain all) r) p),
      count-act (master_of r.domain all) r p,
    )
