-- ===== src/Exchange/Refines.antt =====
-- A sync takes the rows of the two tables to the merged ones.
use mathlib.Core.Path.{subst}
use directdnsonly.Base.{
  ℕ, String, ◌≡◌, refl, sym, ap, ◌∙◌, true, false, Option, none, some, List, [], ◌∷◌, if◌then◌else◌,
  ◌==◌, string_eq, nat_eq, ==_iff, truthy, All, Bool-cases, Option-cases, inl, inr, arith,
}
use directdnsonly.Base.Exec.{Result, ok, raised}
use directdnsonly.Database.{Domain, row, IsUnique, Database, IsDatabase, IsReliable}
use directdnsonly.PeerSync.Zones.{
  Entry, Peer, parse_time, needs_sync, synced_row, zone_of, seen, sync_at, sync_domain, sync_named,
  sync_entry, sync_entries, commit_synced, sync_from_peer,
}
use directdnsonly.PeerSync.Zones.Merge.{synced_row-domain, seen-domain, seen_same, seen_other}
use directdnsonly.Internal.{
  stamp, entry_of, list_row, list_zones, zone_answer, served_zones, served_zone,
}
use directdnsonly.Exchange.{IsClock, peer_of, offers, merged}

module _ {iso : ℕ → String} {read : String → Option ℕ} (C : IsClock iso read) where
  parse-stamp : (o : Option ℕ) → parse_time read (stamp iso o) ≡ ok o
  unfolding parse_time
  parse-stamp none = refl
  parse-stamp (some t) = rw (C.not_blank t, C.reads_back t) refl

-- The row that a sync of a row leaves
synced-merged :
    (r : Domain) (z : String) (iso : ℕ → String) (o : Option Domain)
    → r.zone_data ≡ some z
    → truthy r.domain ≡ true
    → truthy z ≡ true
    → needs_sync o r.zone_updated_at ≡ true
    → some (synced_row r.domain (entry_of iso r) r.zone_updated_at z o) ≡ merged o (some r)
unfolding synced_row needs_sync entry_of
synced-merged r z iso none h d t n = ground (arith, h, d, t)
synced-merged r z iso (some l) h d t n = ground (arith, h, d, t, n)

kept-merged :
    (r : Domain) (o : Option Domain)
    → needs_sync o r.zone_updated_at ≡ false
    → o ≡ merged o (some r)
unfolding needs_sync
kept-merged r none n = cc n
kept-merged r (some l) n = ground (arith, n)

blank-merged : (r : Domain) (o : Option Domain) → offers r ≡ false → o ≡ merged o (some r)
blank-merged r none n = ground (arith, n)
blank-merged r (some l) n = ground (arith, n)

-- A row that was met, and then the rows behind it, whose names are others
chain :
    (k : String) (r : Domain) (rows : List Domain) (before after : Option Domain)
    → after ≡ (if k == r.domain then merged before (some r) else before)
    → row r.domain rows ≡ none
    → merged after (row k rows) ≡ merged before (row k (r ∷ rows))
chain k r rows before after h none_left = elim (Bool-cases (k == r.domain)) [
  | inl same ↦
      let absent : row k rows ≡ none = rw ((==_iff k r.domain).0 same) none_left in
      rw (absent, h, same) refl
  | inr apart ↦ rw (h, apart) refl
]

module _ {P Q : Domain → Type 0} (f : (s : Domain) → P s → Q s) where
  All-map : (rows : List Domain) → All P rows → All Q rows
  All-map [] h = tt
  All-map (r ∷ rows) h = (f r h.0, All-map rows h.1)

rows_found : (rows : List Domain) → IsUnique rows → All (λ s. row s.domain rows ≡ some s) rows
rows_found [] u = tt
rows_found (r ∷ rows) u = (ground arith, All-map (λ s h. behind s h) rows (rows_found rows u.1))
  where
    behind : (s : Domain) → row s.domain rows ≡ some s → row s.domain (r ∷ rows) ≡ some s
    behind s h = ground (arith, h, u.0)

module _ {D : Database} (L : IsDatabase D) (E : Database) {iso : ℕ → String}
    {read : String → Option ℕ} (C : IsClock iso read) (remote : E.Table) (t : D.Table) where
  abbrev P : Peer
  P = peer_of E iso read remote

  -- The rows that a session sees after a step that meets a row
  abbrev Met : Domain → List Domain → Result (List Domain) → Type 0
  Met r dirty (raised e) = ⊥
  Met r dirty (ok after) =
      (k : String)
      → seen D P after t k
        ≡ (if k == r.domain then merged (seen D P dirty t k) (some r) else seen D P dirty t k)

  unmet :
      (r : Domain) (dirty : List Domain)
      → seen D P dirty t r.domain ≡ merged (seen D P dirty t r.domain) (some r)
      → Met r dirty (ok dirty)
  unmet r dirty h k = elim (Bool-cases (k == r.domain)) [
    | inl same ↦
        let p = (==_iff k r.domain).0 same in
        rw same (subst (λ j. seen D P dirty t j ≡ merged (seen D P dirty t j) (some r)) (sym p) h)
    | inr apart ↦ rw apart refl
  ]

  met :
      (r : Domain) (dirty : List Domain) (new : Domain)
      → new.domain ≡ r.domain
      → some new ≡ merged (seen D P dirty t r.domain) (some r)
      → Met r dirty (ok (new ∷ dirty))
  met r dirty new named h k = elim (Bool-cases (k == r.domain)) [
    | inl same ↦
        let p = (==_iff k r.domain).0 same in
        rw same (
          sym (seen_same L P t new dirty k (p ∙ sym named))
          ∙ subst (λ j. some new ≡ merged (seen D P dirty t j) (some r)) (sym p) h)
    | inr apart ↦ rw apart (sym (seen_other L P t new dirty k (ap (λ j. k == j) named ∙ apart)))
  ]

  answers :
      (r : Domain) (z : String)
      → E.find r.domain remote ≡ some r
      → r.zone_data ≡ some z
      → zone_of (served_zone E iso r.domain remote) ≡ ok (if truthy z then some z else none)
  unfolding served_zone zone_of nat_eq
  answers r z found holds =
      ap (λ o. zone_of (zone_answer o)) found
      ∙ ap (λ o. zone_of (zone_answer (some (record r { zone_data = o })))) holds

  meets :
      (r : Domain) (z : String) (dirty : List Domain)
      → E.find r.domain remote ≡ some r
      → r.zone_data ≡ some z
      → truthy r.domain ≡ true
      → Met r dirty (sync_at D P r.domain (entry_of iso r) t dirty (ok r.zone_updated_at))
  meets r z dirty found holds named =
      let local = seen D P dirty t r.domain in
      elim (Bool-cases (needs_sync local r.zone_updated_at)) [
        | inl needed ↦ elim (Bool-cases (truthy z)) [
          | inl full ↦
              rw (needed, answers r z found holds, full)
                (met r dirty (synced_row r.domain (entry_of iso r) r.zone_updated_at z local)
                  (synced_row-domain r.domain (entry_of iso r) r.zone_updated_at z local
                    (λ r0. seen-domain L P t dirty r.domain r0))
                  (synced-merged r z iso local holds named full needed))
          | inr blank ↦
              rw (needed, answers r z found holds, blank)
                (unmet r dirty (blank-merged r local (ground (arith, holds, blank))))
        ]
        | inr kept ↦ rw kept (unmet r dirty (kept-merged r local kept))
      ]

  returned :
      (r : Domain) (dirty : List Domain) (done : Result (List Domain))
      → Met r dirty done
      → (after : List Domain) × (Met r dirty (ok after)) × (done ≡ ok after)
  returned r dirty (raised e) h = absurd h
  returned r dirty (ok after) h = (after, h, refl)

  meets_named :
      (r : Domain) (z : String) (dirty : List Domain)
      → E.find r.domain remote ≡ some r
      → r.zone_data ≡ some z
      → Met r dirty (sync_named D P (some r.domain) (entry_of iso r) t dirty)
  unfolding sync_domain entry_of
  meets_named r z dirty found holds = elim (Bool-cases (truthy r.domain)) [
    | inl named ↦ rw (named, parse-stamp C r.zone_updated_at) (meets r z dirty found holds named)
    | inr blank ↦ rw blank (unmet r dirty (blank-merged r _ (ground (arith, blank))))
  ]

  met_row :
      (r : Domain) (z : Option String) (dirty : List Domain)
      → E.find r.domain remote ≡ some r
      → r.zone_data ≡ z
      → (rest : List Entry)
      → (after : List Domain) × (Met r dirty (ok after))
        × (sync_entries D P (list_row iso r z rest) t (ok dirty)
            ≡ sync_entries D P rest t (ok after))
  unfolding entry_of sync_entries sync_entry
  met_row r none dirty found holds rest =
      (dirty, unmet r dirty (blank-merged r _ (ground (arith, holds))), refl)
  met_row r (some z) dirty found holds rest =
      let (after, meets_after, e) = returned r dirty _ (meets_named r z dirty found holds) in
      (after, meets_after, ap (λ done. sync_entries D P rest t done) e)

  meets_rows :
      (rows : List Domain) (dirty : List Domain)
      → IsUnique rows
      → All (λ r. E.find r.domain remote ≡ some r) rows
      → (after : List Domain) × (sync_entries D P (list_zones iso rows) t (ok dirty) ≡ ok after)
        × ((k : String) → seen D P after t k ≡ merged (seen D P dirty t k) (row k rows))
  unfolding list_zones sync_entries
  meets_rows [] dirty u found = (dirty, refl, λ k. refl)
  meets_rows (r ∷ rows) dirty u found =
      let (after, one, e) = met_row r r.zone_data dirty found.0 refl (list_zones iso rows) in
      let (last, e', all) = meets_rows rows after u.1 found.1 in
      (
        last,
        e ∙ e',
        λ k. all k ∙ chain k r rows (seen D P dirty t k) (seen D P after t k) (one k) u.0,
      )

  committed_rows :
      (after : List Domain)
      → (commit_synced D P (ok after) t).0 ≡ ok true
      → (k : String) → D.find k (commit_synced D P (ok after) t).1 ≡ seen D P after t k
  committed_rows [] r k = refl
  committed_rows (x ∷ xs) r k = elim (Option-cases (D.save (x ∷ xs) t)) [
    | inl e ↦ ground (arith, e, r)
    | inr (u, e) ↦ ground (arith, e, L.find-save (x ∷ xs) t u e k)
  ]

-- A sync that returns, from an instance that serves its table, takes every row to the merged one of the two
-- tables, and a name that has no row on either side to none.
pub sync_from_peer-merged :
    {D : Database} (L : IsDatabase D) {E : Database} (K : IsDatabase E) {iso : ℕ → String}
    {read : String → Option ℕ} (C : IsClock iso read) (remote : E.Table) (t : D.Table)
    → (sync_from_peer D (peer_of E iso read remote) t).0 ≡ ok true
    → (k : String)
    → D.find k (sync_from_peer D (peer_of E iso read remote) t).1
      ≡ merged (D.find k t) (E.find k remote)
unfolding sync_from_peer served_zones nat_eq
sync_from_peer-merged {D} L {E} K {iso} {read} C remote t returns k =
    let rows = E.all remote in
    let unique = K.all-IsUnique remote in
    let found = All-map (λ s h. K.find-all s.domain remote ∙ h) rows (rows_found rows unique) in
    let (after, e, all) = meets_rows L E C remote t rows [] unique found in
    let done = commit_synced D (peer_of E iso read remote) in
    rw e (
      committed_rows L E C remote t after (sym (ap (λ d. (done d t).0) e) ∙ returns) k
      ∙ (all k ∙ ap (merged (D.find k t)) (sym (K.find-all k remote))))

-- If no commit raises, the sync returns.
pub sync_from_peer-returns :
    {D : Database} (L : IsDatabase D) (R : IsReliable D) {E : Database} (K : IsDatabase E)
    {iso : ℕ → String} {read : String → Option ℕ} (C : IsClock iso read) (remote : E.Table)
    (t : D.Table)
    → (sync_from_peer D (peer_of E iso read remote) t).0 ≡ ok true
unfolding sync_from_peer served_zones nat_eq
sync_from_peer-returns {D} L R {E} K {iso} {read} C remote t =
    let rows = E.all remote in
    let unique = K.all-IsUnique remote in
    let found = All-map (λ s h. K.find-all s.domain remote ∙ h) rows (rows_found rows unique) in
    let (after, e, all) = meets_rows L E C remote t rows [] unique found in rw e (commits after)
  where
    commits :
        (after : List Domain)
        → (commit_synced D (peer_of E iso read remote) (ok after) t).0 ≡ ok true
    commits [] = refl
    commits (x ∷ xs) = ground (arith, R.save_succeeds (x ∷ xs) t)
