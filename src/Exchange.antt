-- ===== src/Exchange.antt =====
-- The peer sync of one instance against the internal API of another (directdnsonly/app/peer_sync.py and
-- directdnsonly/app/api/internal.py), and what it promises row by row.
pub mod Refines
pub mod Converges
use directdnsonly.Base.{
  ℕ, String, ◌≡◌, Bool, true, false, ◌&&◌, ◌||◌, Option, none, some, List, if◌then◌else◌, string_eq,
  truthy, truthy?,
}
use directdnsonly.Base.Exec.{Result, ok}
use directdnsonly.Database.{Domain, Database}
use directdnsonly.PeerSync.Zones.{Peer, is_newer, lacks_data}
use directdnsonly.Internal.{served_zones, served_zone}

-- Time stamps as text: what is written can be read, and is not blank.
pub record IsClock (isoformat : ℕ → String) (fromisoformat : String → Option ℕ) : Type 0 where
  pub reads_back : (t : ℕ) → fromisoformat (isoformat t) ≡ some t
  pub not_blank : (t : ℕ) → truthy (isoformat t) ≡ true

-- An instance with a table as another one sees it
abbrev pub peer_of : (D : Database) → (ℕ → String) → (String → Option ℕ) → D.Table → Peer
peer_of D isoformat fromisoformat t = record {
  zones = ok (served_zones D isoformat t);
  zone = λ d. ok (served_zone D isoformat d t);
  fromisoformat = fromisoformat;
}

-- The row offers a zone: neither its name nor its zone is blank.
abbrev pub offers : Domain → Bool
offers r = truthy r.domain && truthy? r.zone_data

abbrev pub takes : Domain → Domain → Bool
takes l r = lacks_data l || is_newer r.zone_updated_at l.zone_updated_at

-- The row of an instance after it has met the row of another: the last writer wins, and the owner of a
-- row stays.
abbrev pub merged : Option Domain → Option Domain → Option Domain
merged o none = o
merged none (some r) = if offers r then some r else none
merged (some l) (some r) =
    if offers r && takes l r
    then some (record l { zone_data = r.zone_data; zone_updated_at = r.zone_updated_at })
    else some l
