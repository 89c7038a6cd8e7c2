-- ===== src/Exchange/Converges.antt =====
-- Two instances that sync from each other end with the same zones.
use directdnsonly.Base.{
  ℕ, String, ◌≡◌, refl, Bool, true, false, ◌&&◌, ◌||◌, Option, none, some, truthy, truthy?, arith,
}
use directdnsonly.Database.{Domain, Database, IsDatabase, IsReliable}
use directdnsonly.PeerSync.Zones.{is_newer, lacks_data, sync_from_peer}
use directdnsonly.Exchange.{IsClock, peer_of, merged}
use directdnsonly.Exchange.Refines.{sync_from_peer-merged, sync_from_peer-returns}

-- The zone of a row, if there is a row and it holds one
abbrev pub zone_in : Option Domain → Option String
zone_in none = none
zone_in (some r) = r.zone_data

-- A row's name is not blank, nor is its zone if it holds one.
abbrev pub is_sound : Domain → Bool
is_sound r = truthy r.domain && (lacks_data r || truthy? r.zone_data)

-- One of two rows lacks a zone, or one has the newer zone.
abbrev pub is_decided : Domain → Domain → Bool
is_decided l r =
    lacks_data l
    || (lacks_data r
        || (is_newer l.zone_updated_at r.zone_updated_at
            || is_newer r.zone_updated_at l.zone_updated_at))

-- The rows of a name on two instances can be brought together.
abbrev pub agree_on : Option Domain → Option Domain → Bool
agree_on none none = true
agree_on (some l) none = is_sound l
agree_on none (some r) = is_sound r
agree_on (some l) (some r) = is_sound l && (is_sound r && is_decided l r)

newer_asym : (s t : Option ℕ) → is_newer s t ≡ true → is_newer t s ≡ false
newer_asym none t h = cc h
newer_asym (some s) none h = refl
newer_asym (some s) (some t) h = ground (arith, h)

newer_irrefl : (s : Option ℕ) → is_newer s s ≡ false
newer_irrefl none = refl
newer_irrefl (some s) = ground arith

merged-agree :
    (a b : Option Domain)
    → agree_on a b ≡ true
    → zone_in (merged a b) ≡ zone_in (merged b (merged a b))
merged-agree none none h = refl
merged-agree (some l) none h = ground (arith, h)
merged-agree none (some r) h = ground (arith, h, newer_irrefl r.zone_updated_at)
merged-agree (some l) (some r) h = ground (
  arith,
  h,
  newer_irrefl r.zone_updated_at,
  newer_asym l.zone_updated_at r.zone_updated_at,
  newer_asym r.zone_updated_at l.zone_updated_at,
)

merged_idem : (a b : Option Domain) → merged (merged a b) b ≡ merged a b
merged_idem a none = refl
merged_idem none (some r) = ground (arith, newer_irrefl r.zone_updated_at)
merged_idem (some l) (some r) = ground (arith, newer_irrefl r.zone_updated_at)

module _ {D : Database} (L : IsDatabase D) (R : IsReliable D) {iso : ℕ → String}
    {read : String → Option ℕ} (C : IsClock iso read) where
  -- The table of an instance after a sync from another
  abbrev pub synced : D.Table → D.Table → D.Table
  synced remote t = (sync_from_peer D (peer_of D iso read remote) t).1

  find-synced :
      (remote t : D.Table) (k : String)
      → D.find k (synced remote t) ≡ merged (D.find k t) (D.find k remote)
  find-synced remote t k =
      sync_from_peer-merged L L C remote t (sync_from_peer-returns L R L C remote t) k

  -- After one instance has synced from another, and the other from it, both hold the same zone of every name that
  -- they can agree on: the newer one, or the only one.
  pub synced-agree :
      (a b : D.Table) (k : String)
      → agree_on (D.find k a) (D.find k b) ≡ true
      → zone_in (D.find k (synced b a)) ≡ zone_in (D.find k (synced (synced b a) b))
  synced-agree a b k h =
      rw (find-synced (synced b a) b k, find-synced b a k)
        (merged-agree (D.find k a) (D.find k b) h)

  -- A second sync from the same table changes no row.
  pub synced_idem :
      (a b : D.Table) (k : String) → D.find k (synced b (synced b a)) ≡ D.find k (synced b a)
  synced_idem a b k =
      rw (find-synced b (synced b a) k, find-synced b a k) (merged_idem (D.find k a) (D.find k b))
