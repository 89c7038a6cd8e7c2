-- ===== src/PeerSync/Zones/Arrival.antt =====
-- A zone that is missing arrives with a sync (directdnsonly/app/peer_sync.py, `_sync_from_peer`).
use mathlib.Core.Path.{subst}
use directdnsonly.Base.{
  ℕ, String, ◌≡◌, refl, sym, ap, ◌∙◌, Bool, true, false, not, Option, none, some, List, [], ◌∷◌,
  ◌==◌, inl, inr, string_eq, nat_eq, truthy, Option-cases, Bool-cases, ==_iff, arith, contains, map,
  option_eq,
}
use directdnsonly.Base.Exec.{Result, ok, raised}
use directdnsonly.Database.{Domain, Database, IsDatabase}
use directdnsonly.PeerSync.Zones.{
  Entry, Response, Peer, parse_time, lacks_data, needs_sync, synced_row, zone_of, seen, sync_at,
  sync_domain, sync_named, sync_entry, sync_entries, commit_synced, sync_response, sync_from_peer,
}
use directdnsonly.PeerSync.Zones.Merge.{
  Kept, KeptBy, sync_entries-Kept, synced_row-domain, seen-domain, seen_same,
}

-- The row, if there is one, holds a zone.
abbrev pub has_zone : Option Domain → Bool
has_zone none = false
has_zone (some r) = not (lacks_data r)

Kept-has_zone : (r : Domain) (o : Option Domain) → Kept r o → has_zone o ≡ true
Kept-has_zone r none kept = elim kept [ ]
Kept-has_zone r (some s) kept = ap not kept.0

synced-has_zone :
    (d : String) (entry : Entry) (ts : Option ℕ) (z : String) (o : Option Domain)
    → has_zone (some (synced_row d entry ts z o)) ≡ true
unfolding synced_row
synced-has_zone d entry ts z none = refl
synced-has_zone d entry ts z (some r) = refl

unneeded : (o : Option Domain) (ts : Option ℕ) → needs_sync o ts ≡ false → has_zone o ≡ true
unfolding needs_sync
unneeded none ts h = cc h
unneeded (some r) ts h = ground arith

module _ {D : Database} (L : IsDatabase D) (P : Peer) (t : D.Table) (d : String) where
  abbrev HasBy : Result (List Domain) → Type 0
  HasBy (raised e) = Unit {0}
  HasBy (ok dirty) = has_zone (seen D P dirty t d) ≡ true

  later :
      (entries : List Entry) (dirty : List Domain) (o : Option Domain)
      → seen D P dirty t d ≡ o
      → has_zone o ≡ true
      → HasBy (sync_entries D P entries t (ok dirty))
  later entries dirty none e h = absurd (cc h)
  later entries dirty (some r) e h = weaken r (sync_entries D P entries t (ok dirty)) (
      sync_entries-Kept L P t d r entries (ok dirty)
        (subst (Kept r) (sym e) (ground (arith, h), refl, inl refl)))
    where
      weaken : (r : Domain) (done : Result (List Domain)) → KeptBy L P t d r done → HasBy done
      weaken r (raised e) kept = tt
      weaken r (ok dirty) kept = Kept-has_zone r _ kept

  stays :
      (entries : List Entry) (done : Result (List Domain))
      → HasBy done
      → HasBy (sync_entries D P entries t done)
  unfolding sync_entries
  stays [] (raised e) h = tt
  stays (entry ∷ entries) (raised e) h = tt
  stays entries (ok dirty) h = later entries dirty _ refl h

  module _ (z : String) (real : truthy d ≡ true) (full : truthy z ≡ true)
      (served : P.zone d ≡ ok (record { status_code = 200; json = ok (some z) })) where
    -- The entry of the zone, once its time stamp is read.
    arrives :
        (entry : Entry) (ts : Option ℕ) (dirty : List Domain)
        → HasBy (sync_at D P d entry t dirty (ok ts))
    unfolding zone_of nat_eq
    arrives entry ts dirty =
        let local = seen D P dirty t d in
        let new = synced_row d entry ts z local in
        let named = synced_row-domain d entry ts z local (λ r0. seen-domain L P t dirty d r0) in
        elim (Bool-cases (needs_sync local ts)) [
          | inl needed ↦
              rw (needed, served, full)
                (ap has_zone (sym (seen_same L P t new dirty d (sym named)))
                  ∙ synced-has_zone d entry ts z local)
          | inr kept ↦ rw kept (unneeded local ts kept)
        ]

    arrives_named :
        (o : Option String) (entry : Entry) (dirty : List Domain)
        → o ≡ some d
        → HasBy (sync_named D P o entry t dirty)
    unfolding sync_domain
    arrives_named o entry dirty e =
        subst (λ o. HasBy (sync_named D P o entry t dirty)) (sym e)
          (rw real (read (parse_time P.fromisoformat entry.zone_updated_at)))
      where
        read : (ts : Result (Option ℕ)) → HasBy (sync_at D P d entry t dirty ts)
        read (raised e) = tt
        read (ok ts) = arrives entry ts dirty

    arrives_among :
        (entries : List Entry) (done : Result (List Domain))
        → contains (map (λ e. e.domain) entries) (some d) ≡ true
        → HasBy (sync_entries D P entries t done)
    unfolding sync_entries sync_entry
    arrives_among [] done h = absurd (cc h)
    arrives_among (entry ∷ entries) (raised e) h = tt
    arrives_among (entry ∷ entries) (ok dirty) h = elim (Bool-cases (some d == entry.domain)) [
      | inl same ↦
          stays entries (sync_named D P entry.domain entry t dirty)
            (arrives_named entry.domain entry dirty (sym ((==_iff (some d) entry.domain).0 same)))
      | inr apart ↦
          arrives_among entries (sync_named D P entry.domain entry t dirty)
            (ground (arith, h, apart))
    ]

  commit-has_zone :
      (done : Result (List Domain))
      → HasBy done
      → (commit_synced D P done t).0 ≡ ok true
      → has_zone (D.find d (commit_synced D P done t).1) ≡ true
  commit-has_zone (raised e) h r = absurd (cc r)
  commit-has_zone (ok []) h r = h
  commit-has_zone (ok (x ∷ xs)) h r = elim (Option-cases (D.save (x ∷ xs) t)) [
    | inl e ↦ ground (arith, e, r)
    | inr (u, e) ↦ ground (arith, e, h, L.find-save (x ∷ xs) t u e d)
  ]

-- Over any database, if the peer's list names a domain and its zone is answered with status 200, and
-- neither name nor zone is blank, then after a sync that returns the domain has a row that holds a zone.
pub sync_from_peer-has_zone :
    {D : Database} (L : IsDatabase D) (P : Peer) (t : D.Table) (d z : String) (entries : List Entry)
    → P.zones ≡ ok (record { status_code = 200; json = ok entries })
    → contains (map (λ e. e.domain) entries) (some d) ≡ true
    → truthy d ≡ true
    → truthy z ≡ true
    → P.zone d ≡ ok (record { status_code = 200; json = ok (some z) })
    → (sync_from_peer D P t).0 ≡ ok true
    → has_zone (D.find d (sync_from_peer D P t).1) ≡ true
unfolding sync_from_peer nat_eq
sync_from_peer-has_zone {D} L P t d z entries answered names real full served returns =
    let sync = λ (w : Result (Response (List Entry))). sync_response D P w t in
    rw answered (
      commit-has_zone L P t d (sync_entries D P entries t (ok []))
        (arrives_among L P t d z real full served entries (ok []) names)
        (sym (ap (λ w. (sync w).0) answered) ∙ returns))
