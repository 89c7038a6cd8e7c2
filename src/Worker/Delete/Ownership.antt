-- ===== src/Worker/Delete/Ownership.antt =====
-- When the delete worker drops a zone, and what it leaves alone.
use directdnsonly.Base.{
  String, ◌≡◌, ◌≢◌, refl, ◌↔◌, Bool, true, false, none, some, arith, if◌then◌else◌, ◌==◌, string_eq,
  option_eq, Option-cases, inl, inr, contains, ◌⊎◌, truthy?, Option,
}
use directdnsonly.Base.Exec.{ok}
use directdnsonly.Database.{Domain, IsReliable}
use directdnsonly.Database.Rows.{contains-all}
use directdnsonly.Worker.State.{Item, Host, IsHost, Manager}
use directdnsonly.Worker.Backends.{delete_single_backend, on_each}
use directdnsonly.Worker.Backends.Outcomes.{AllSucceed, all_true-on_each, all_true-perm}
use directdnsonly.Worker.Save.{domain_names}
use directdnsonly.Worker.Delete.{
  or_empty, session_row, rejected, deleted, is_foreign, delete_from_backends, delete_item,
}

-- The call on one backend.
abbrev pub delete_call : (H : Host) → String → H.database.Table → H.Instance → Bool × H.Instance
delete_call H domain t = delete_single_backend H.backend domain (domain_names H t)

-- The row names no owner, or names this host.
abbrev pub IsOwnedBy : String → Domain → Type 0
IsOwnedBy host r = (truthy? r.hostname ≡ false) ⊎ (r.hostname ≡ some host)

pub is_foreign-IsOwnedBy :
    (r : Domain) (item : Item) → (is_foreign r item ≡ false) ↔ IsOwnedBy (or_empty item.hostname) r
unfolding option_eq
is_foreign-IsOwnedBy r item = (
  (λ own. ground (arith, own)),
  λ own. elim own [ inl unnamed ↦ ground (arith, unnamed) | inr same ↦ ground (arith, same) ],
)

-- The delete of `d` was due, and `t` is the table without its row: the row was there, as the worker's
-- session reads it owned by the host that asks or by none, and every backend reports success.
abbrev pub Allowed : (H : Host) → Item → String → Manager H → H.database.Table → Type 0
Allowed H item d m t =
    (H.database.find d m.table ≢ none)
    × (r : Domain) × (session_row d m.session_record (H.database.find d m.table) ≡ some r)
    × IsOwnedBy (or_empty item.hostname) r
    × AllSucceed (delete_call H d m.table) m.backends
    × ((k : String) → H.database.find k t ≡ (if k == d then none else H.database.find k m.table))

module _ (H : Host) (L : IsHost H) (item : Item) (m : Manager H) where
  open H use {database}

  AllSucceed-iff :
      (d : String)
      → ((delete_from_backends H d m).0 ≡ true) ↔ AllSucceed (delete_call H d m.table) m.backends
  unfolding delete_from_backends
  AllSucceed-iff d =
      let f = delete_call H d m.table in
      ground (
        arith,
        all_true-on_each f m.backends,
        all_true-perm (L.as_completed (on_each f m.backends).0),
      )

  -- What the session holds matters to no backend.
  pub delete_from_backends_lem :
      (d : String) (o : Option Domain)
      → let (success, m') = delete_from_backends H d (record m { session_record = o }) in
        (success ≡ (delete_from_backends H d m).0)
        × (m'.table ≡ m.table)
        × (m'.backends ≡ (delete_from_backends H d m).1.backends)
  unfolding delete_from_backends
  delete_from_backends_lem d o = (refl, refl, refl)

  no_session_row :
      (d : String) (o : Option Domain)
      → database.find d m.table ≡ none
      → session_row d o (database.find d m.table) ≡ none
  no_session_row d o gone = rw gone

  -- A zone is deleted only if the table has its row, the row, as the worker's session reads it, is owned
  -- by the host that asks or by none, and every backend reports success. Its row is then gone, and
  -- every other row is as before.
  pub delete_item-deleted :
      (d : String)
      → item.domain ≡ some d
      → (delete_item H item m).0 ≡ ok deleted
      → Allowed H item d m (delete_item H item m).1.table
  unfolding delete_item
  delete_item-deleted d named h =
      elim (Option-cases (session_row d m.session_record (database.find d m.table))) [
        | inl gone ↦ absurd (ground (arith, named, gone))
        | inr (r, found) ↦
            let (same, table, backends) = delete_from_backends_lem d (some r) in
            elim (Option-cases (database.remove d m.table)) [
              | inl lost ↦ absurd (ground (arith, named, found, lost, table))
              | inr (t, removed) ↦
                  let law = λ (k : String). L.database.find-remove d m.table t removed k in
                  (
                    (λ gone. cc (found, no_session_row d m.session_record gone)),
                    r,
                    found,
                    (is_foreign-IsOwnedBy r item).0 (ground (arith, named, found)),
                    (AllSucceed-iff d).0 (ground (arith, named, found, same)),
                    λ k. ground (arith, named, found, removed, table, law k),
                  )
            ]
      ]

  -- In every other case, exceptions included, the table is as before.
  pub delete_item_keeps :
      (delete_item H item m).0 ≢ ok deleted → (delete_item H item m).1.table ≡ m.table
  unfolding delete_item
  delete_item_keeps h = elim (Option-cases item.domain) [
    | inl nameless ↦ rw nameless
    | inr (d, named) ↦
        elim (Option-cases (session_row d m.session_record (database.find d m.table))) [
          | inl gone ↦ ground (arith, named, gone)
          | inr (r, found) ↦ ground (arith, named, found, (delete_from_backends_lem d (some r)).1)
        ]
  ]

  -- A delete from a host that does not own the zone calls no backend.
  pub delete_item-rejected :
      (d : String) (r : Domain)
      → item.domain ≡ some d
      → session_row d m.session_record (database.find d m.table) ≡ some r
      → is_foreign r item ≡ true
      → ((delete_item H item m).0 ≡ ok rejected)
        × ((delete_item H item m).1.backends ≡ m.backends)
        × ((delete_item H item m).1.table ≡ m.table)
  unfolding delete_item
  delete_item-rejected d r named found foreign = ground (arith, named, found, foreign)

  -- A delete that the owner asks for goes through, if the backends and the commit succeed.
  pub delete_item-succeeds :
      (d : String) (r : Domain)
      → IsReliable database
      → item.domain ≡ some d
      → session_row d m.session_record (database.find d m.table) ≡ some r
      → is_foreign r item ≡ false
      → AllSucceed (delete_call H d m.table) m.backends
      → (delete_item H item m).0 ≡ ok deleted
  unfolding delete_item
  delete_item-succeeds d r R named found owner success =
      let (same, table, backends) = delete_from_backends_lem d (some r) in
      elim (Option-cases (database.remove d m.table)) [
        | inl lost ↦ absurd (R.remove_succeeds d m.table lost)
        | inr (t, removed) ↦
            ground (arith, named, found, owner, removed, (AllSucceed-iff d).1 success, same, table)
      ]

  -- The list that the backends are given still names the zone that is being deleted.
  pub remaining-contains :
      (d : String) (r : Domain)
      → database.find d m.table ≡ some r
      → contains (domain_names H m.table) d ≡ true
  remaining-contains d r found = contains-all L.database d m.table found
