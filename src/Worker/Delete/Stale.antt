-- ===== src/Worker/Delete/Stale.antt =====
-- The row that the session of the delete worker (directdnsonly/worker.py) keeps after a rejected
-- delete.
use directdnsonly.Base.{
  String, ◌≡◌, refl, ◌∙◌, true, false, none, some, ◌==◌, ==_iff, string_eq, arith, truthy,
  option_eq,
}
use directdnsonly.Base.Exec.{ok}
use directdnsonly.Database.{Domain}
use directdnsonly.Worker.State.{Item, Host, IsHost, Manager}
use directdnsonly.Database.Rows.{find-domain}
use directdnsonly.Worker.Delete.Ownership.{delete_item-rejected}
use directdnsonly.Worker.Delete.{session_row, rejected, is_foreign, delete_item}

module _ (H : Host) (item : Item) (d : String) (m : Manager H) where
  -- A rejected delete leaves the row in the session.
  delete_item_held :
      (old : Domain)
      → item.domain ≡ some d
      → session_row d m.session_record (H.database.find d m.table) ≡ some old
      → is_foreign old item ≡ true
      → (delete_item H item m).1.session_record ≡ some old
  unfolding delete_item
  delete_item_held old named found foreign = ground (arith, named, found, foreign)

foreign :
    (r : Domain) (item : Item) (a b : String)
    → r.hostname ≡ some a
    → truthy a ≡ true
    → item.hostname ≡ some b
    → (a == b) ≡ false
    → is_foreign r item ≡ true
unfolding option_eq
foreign r item a b owner named asks apart = ground (arith, owner, asks, named, apart)

-- A row names host a, which is not blank, and the session of the delete worker holds no row. Then
-- a delete of the domain from another host b is rejected; and when the row has since been given to
-- b, the next delete of the domain from b is rejected too, and changes neither the table nor a
-- backend, as long as the session holds what the first delete left in it.
pub delete_item-rejected_again :
    (H : Host) (L : IsHost H) (first second : Item) (d a b : String) (m later : Manager H)
    (old new : Domain)
    → first.domain ≡ some d
    → second.domain ≡ some d
    → first.hostname ≡ some b
    → second.hostname ≡ some b
    → truthy a ≡ true
    → (a == b) ≡ false
    → m.session_record ≡ none
    → H.database.find d m.table ≡ some old
    → old.hostname ≡ some a
    → later.session_record ≡ (delete_item H first m).1.session_record
    → H.database.find d later.table ≡ some new
    → new.hostname ≡ some b
    → ((delete_item H first m).0 ≡ ok rejected)
      × ((delete_item H second later).0 ≡ ok rejected)
      × ((delete_item H second later).1.backends ≡ later.backends)
      × ((delete_item H second later).1.table ≡ later.table)
delete_item-rejected_again H L first second d a b m later old new n1 n2 h1 h2 named apart fresh
      found owner kept there owned =
    let read : session_row d m.session_record (H.database.find d m.table) ≡ some old =
      rw (fresh, found) refl in
    let refused = foreign old first a b owner named h1 apart in
    let held = kept ∙ delete_item_held H first d m old n1 read refused in
    let same : (old.domain == d) ≡ true =
      (==_iff old.domain d).1 (find-domain L.database d m.table found) in
    let again : session_row d later.session_record (H.database.find d later.table) ≡ some old =
      rw (held, there, same) refl in
    let (second_rejected, backends, table) =
      delete_item-rejected H L second later d old n2 again
        (foreign old second a b owner named h2 apart) in
    ((delete_item-rejected H L first m d old n1 read refused).0, second_rejected, backends, table)
