-- ===== src/PeerSync/Zones/Merge.antt =====
-- What a sync does to the rows (directdnsonly/app/peer_sync.py, `_sync_from_peer`).
use mathlib.Core.Path.{subst}
use directdnsonly.Base.{
  ℕ, String, ◌≡◌, refl, sym, ap, ◌∙◌, Bool, true, false, Option, none, some, List, [], ◌∷◌,
  if◌then◌else◌, ◌==◌, ◌⊎◌, inl, inr, string_eq, Option-cases, Bool-cases, truthy, nat_eq, ==_iff,
  arith,
}
use directdnsonly.Base.Exec.{Exc, Result, ok, raised}
use directdnsonly.Database.{Domain, row, or_row, Database, IsDatabase}
use directdnsonly.Database.Rows.{find-domain, row-domain}
use directdnsonly.PeerSync.Zones.{
  Entry, Response, Peer, parse_time, is_newer, lacks_data, needs_sync, synced_row, zone_of, seen,
  keep_result, fetch, sync_at, sync_domain, sync_named, sync_entry, sync_entries, committed,
  commit_synced, sync_list, sync_response, sync_from_peer,
}

-- The row still holds a zone, with the owner it had, and it is the row that stood there or has a newer stamp.
abbrev pub Kept : Domain → Option Domain → Type 0
Kept r none = ⊥
Kept r (some r') =
    (lacks_data r' ≡ false)
    × (r'.hostname ≡ r.hostname)
    × ((r' ≡ r) ⊎ (is_newer r'.zone_updated_at r.zone_updated_at ≡ true))

pub is_newer_trans :
    (a b c : Option ℕ) → is_newer a b ≡ true → is_newer b c ≡ true → is_newer a c ≡ true
is_newer_trans none b c h k = cc
is_newer_trans (some a) none c h k = cc
is_newer_trans (some a) (some b) none h k = refl
is_newer_trans (some a) (some b) (some c) h k = ground arith

synced_row-Kept :
    (r r0 : Domain) (domain : String) (entry : Entry) (ts : Option ℕ) (z : String)
    → needs_sync (some r0) ts ≡ true
    → Kept r (some r0)
    → Kept r (some (synced_row domain entry ts z (some r0)))
unfolding needs_sync synced_row
synced_row-Kept r r0 domain entry ts z h (d, o, inl p) = (refl, o, inr (ground arith))
synced_row-Kept r r0 domain entry ts z h (d, o, inr n) =
    (refl, o, inr (is_newer_trans ts r0.zone_updated_at r.zone_updated_at (ground arith) n))

pub synced_row-domain :
    (domain : String) (entry : Entry) (ts : Option ℕ) (z : String) (o : Option Domain)
    → ((r0 : Domain) → o ≡ some r0 → r0.domain ≡ domain)
    → (synced_row domain entry ts z o).domain ≡ domain
unfolding synced_row
synced_row-domain domain entry ts z none h = refl
synced_row-domain domain entry ts z (some r0) h = h r0 refl

synced-Kept_any :
    (r : Domain) (domain : String) (entry : Entry) (ts : Option ℕ) (z : String) (o : Option Domain)
    → needs_sync o ts ≡ true
    → Kept r o
    → Kept r (some (synced_row domain entry ts z o))
synced-Kept_any r domain entry ts z (some r0) h kept = synced_row-Kept r r0 domain entry ts z h kept
synced-Kept_any r domain entry ts z none h kept = elim kept [ ]

module _ {D : Database} (L : IsDatabase D) (P : Peer) (t : D.Table) where
  pub seen-domain :
      (dirty : List Domain) (k : String) (r0 : Domain)
      → seen D P dirty t k ≡ some r0
      → r0.domain ≡ k
  seen-domain dirty k r0 h = elim (Option-cases (row k dirty)) [
    | inl e ↦ find-domain L k t (sym (ap (λ o. or_row o (D.find k t)) e) ∙ h)
    | inr (d, e) ↦ row-domain k dirty r0 (e ∙ (sym (ap (λ o. or_row o (D.find k t)) e) ∙ h))
  ]

  pub seen_same :
      (new : Domain) (dirty : List Domain) (k : String)
      → k ≡ new.domain
      → some new ≡ seen D P (new ∷ dirty) t k
  seen_same new dirty k e = ground arith

  pub seen_other :
      (new : Domain) (dirty : List Domain) (k : String)
      → (k == new.domain) ≡ false
      → seen D P dirty t k ≡ seen D P (new ∷ dirty) t k
  seen_other new dirty k e = ground arith

  module _ (k : String) (r : Domain) where
    synced-Kept :
        (domain : String) (entry : Entry) (ts : Option ℕ) (z : String) (dirty : List Domain)
        → needs_sync (seen D P dirty t domain) ts ≡ true
        → Kept r (seen D P dirty t k)
        → Kept r (seen D P (synced_row domain entry ts z (seen D P dirty t domain) ∷ dirty) t k)
    synced-Kept domain entry ts z dirty h kept =
        let local = seen D P dirty t domain in
        let new = synced_row domain entry ts z local in
        let named = synced_row-domain domain entry ts z local (λ r0. seen-domain dirty domain r0) in
        elim (Bool-cases (k == domain)) [
          | inl same ↦
              subst (Kept r) (seen_same new dirty k ((==_iff k domain).0 same ∙ sym named)) (
                synced-Kept_any r domain entry ts z local h
                  (subst (λ j. Kept r (seen D P dirty t j)) ((==_iff k domain).0 same) kept))
          | inr apart ↦
              subst (Kept r) (seen_other new dirty k (ap (λ j. k == j) named ∙ apart)) kept
        ]

    abbrev pub KeptBy : Result (List Domain) → Type 0
    KeptBy (raised e) = Unit {0}
    KeptBy (ok dirty) = Kept r (seen D P dirty t k)

    sync_at-Kept :
        (domain : String) (entry : Entry) (dirty : List Domain) (ts : Result (Option ℕ))
        → Kept r (seen D P dirty t k)
        → KeptBy (sync_at D P domain entry t dirty ts)
    sync_at-Kept domain entry dirty (raised e) kept = tt
    sync_at-Kept domain entry dirty (ok ts) kept =
        let local = seen D P dirty t domain in
        test (needs_sync local ts) (P.zone domain)
          (λ z h. synced-Kept domain entry ts z dirty h kept)
      where
        kept_result :
            (z : Result (Option String))
            → ((z : String)
                → Kept r
                    (seen D P (synced_row domain entry ts z (seen D P dirty t domain) ∷ dirty) t k))
            → KeptBy (keep_result D P domain entry ts dirty (seen D P dirty t domain) z)
        kept_result (raised e) new = tt
        kept_result (ok none) new = kept
        kept_result (ok (some z)) new = new z

        test :
            (b : Bool) (z : Result (Response (Option String)))
            → ((z : String)
                → b ≡ true
                → Kept r
                    (seen D P (synced_row domain entry ts z (seen D P dirty t domain) ∷ dirty) t k))
            → KeptBy (
                if b then fetch D P domain entry ts dirty (seen D P dirty t domain) z else ok dirty)
        test false z new = kept
        test true (raised e) new = tt
        test true (ok z) new = kept_result (zone_of z) (λ z. new z refl)

    sync_named-Kept :
        (domain : Option String) (entry : Entry) (dirty : List Domain)
        → Kept r (seen D P dirty t k)
        → KeptBy (sync_named D P domain entry t dirty)
    unfolding sync_domain
    sync_named-Kept none entry dirty kept = kept
    sync_named-Kept (some domain) entry dirty kept =
        elim (truthy domain)
          as (λ b. KeptBy (if b then sync_domain D P domain entry t dirty else ok dirty)) [
            | true ↦
                sync_at-Kept domain entry dirty (parse_time P.fromisoformat entry.zone_updated_at)
                  kept
            | false ↦ kept
          ]

    pub sync_entries-Kept :
        (entries : List Entry) (done : Result (List Domain))
        → KeptBy done
        → KeptBy (sync_entries D P entries t done)
    unfolding sync_entries sync_entry
    sync_entries-Kept [] (raised e) kept = tt
    sync_entries-Kept (entry ∷ entries) (raised e) kept = tt
    sync_entries-Kept [] (ok dirty) kept = kept
    sync_entries-Kept (entry ∷ entries) (ok dirty) kept =
        sync_entries-Kept entries (sync_named D P entry.domain entry t dirty)
          (sync_named-Kept entry.domain entry dirty kept)

    committed-Kept :
        (o : Option D.Table)
        → ((u : D.Table) → o ≡ some u → Kept r (D.find k u))
        → Kept r (D.find k t)
        → Kept r (D.find k (committed D P o t).1)
    committed-Kept none new kept = kept
    committed-Kept (some u) new kept = new u refl

    commit_synced-Kept :
        (done : Result (List Domain))
        → KeptBy done
        → Kept r (D.find k t)
        → Kept r (D.find k (commit_synced D P done t).1)
    commit_synced-Kept (raised e) new kept = kept
    commit_synced-Kept (ok []) new kept = kept
    commit_synced-Kept (ok (d ∷ ds)) new kept =
        committed-Kept (D.save (d ∷ ds) t)
          (λ u e. subst (Kept r) (sym (L.find-save (d ∷ ds) t u e k)) new) kept

    module _ (kept : Kept r (D.find k t)) where
      sync_list-Kept : (z : Result (List Entry)) → Kept r (D.find k (sync_list D P z t).1)
      sync_list-Kept (raised e) = kept
      sync_list-Kept (ok entries) =
          commit_synced-Kept (sync_entries D P entries t (ok []))
            (sync_entries-Kept entries (ok []) kept) kept

      sync_response-Kept :
          (z : Result (Response (List Entry))) → Kept r (D.find k (sync_response D P z t).1)
      sync_response-Kept (raised e) = kept
      sync_response-Kept (ok z) =
          elim (z.status_code == 200)
            as (λ b. Kept r (D.find k (if b then sync_list D P z.json t else (ok true, t)).1)) [
              | true ↦ sync_list-Kept z.json
              | false ↦ kept
            ]

-- Over any database and for any answers of the peer, a row that holds a zone still stands after a
-- sync, holds a zone and has the host it had, and it is the row as before or has a newer time stamp.
pub sync_from_peer-Kept :
    {D : Database} (L : IsDatabase D) (P : Peer) (t : D.Table) (k : String) (r : Domain)
    → D.find k t ≡ some r
    → lacks_data r ≡ false
    → Kept r (D.find k (sync_from_peer D P t).1)
unfolding sync_from_peer
sync_from_peer-Kept {D} L P t k r found has =
    sync_response-Kept L P t k r (subst (Kept r) (sym found) (has, refl, inl refl)) P.zones

module _ (D : Database) (P : Peer) where
  -- A sync that raises leaves the table as it was, whichever entry or call raised.
  pub sync_from_peer_atomic :
      (t u : D.Table) (e : Exc) → sync_from_peer D P t ≡ (raised e, u) → u ≡ t
  unfolding sync_from_peer
  sync_from_peer_atomic t u e h = ground arith
