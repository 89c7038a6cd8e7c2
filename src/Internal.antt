-- ===== src/Internal.antt =====
-- directdnsonly/app/api/internal.py: what an instance answers to its peers. The text of a time stamp
-- is a parameter, `isoformat`.
pub mod Served
pub mod Gossip
use directdnsonly.Base.{ℕ, String, Option, none, some, List, [], ◌∷◌, if◌then◌else◌, truthy}
use directdnsonly.Base.Exec.{ok}
use directdnsonly.Database.{Domain, Database}
use directdnsonly.PeerSync.Peers.{PeerConfig, get_peer_urls}
use directdnsonly.PeerSync.Zones.{Entry, Response, Peer}

-- `zone_updated_at.isoformat() if zone_updated_at else None`
abbrev pub stamp : (ℕ → String) → Option ℕ → Option String
stamp isoformat none = none
stamp isoformat (some t) = some (isoformat t)

unfoldable pub entry_of : (ℕ → String) → Domain → Entry
entry_of isoformat r = record {
  domain = some r.domain;
  zone_updated_at = stamp isoformat r.zone_updated_at;
  hostname = r.hostname;
  username = r.username;
}

-- The entry of a row that holds a zone.
abbrev pub list_row : (ℕ → String) → Domain → Option String → List Entry → List Entry
list_row isoformat r none rest = rest
list_row isoformat r (some z) rest = entry_of isoformat r ∷ rest

unfoldable pub list_zones : (ℕ → String) → List Domain → List Entry
unfolding entry_of
list_zones isoformat [] = []
list_zones isoformat (r ∷ rows) = list_row isoformat r r.zone_data (list_zones isoformat rows)

-- The answer for a row that may be missing or hold no zone: the error document of status 404 has no
-- zone.
abbrev pub zone_answer : Option Domain → Response (Option String)
zone_answer none = record { status_code = 404; json = ok none }
zone_answer (some r) = elim r.zone_data [
  | none ↦ record { status_code = 404; json = ok none }
  | some z ↦ record { status_code = 200; json = ok (some z) }
]

module _ (D : Database) (isoformat : ℕ → String) where
  -- `zones` without a domain
  unfoldable pub served_zones : D.Table → Response (List Entry)
  unfolding list_zones
  served_zones t = record { status_code = 200; json = ok (list_zones isoformat (D.all t)) }

  -- `zones` for a domain: its zone is all that a peer reads of the document.
  unfoldable pub served_zone : String → D.Table → Response (Option String)
  served_zone domain t = zone_answer (D.find domain t)

-- What `zones` answers: the list of zones, or one zone
pub data Zones : Type 0 where
  all_zones : Response (List Entry) → Zones
  one_zone : Response (Option String) → Zones
  server_error : Zones

module _ (D : Database) (isoformat : ℕ → String) where
  abbrev served : Option String → D.Table → Zones
  served none t = all_zones (served_zones D isoformat t)
  served (some domain) t =
      if truthy domain
      then one_zone (served_zone D isoformat domain t)
      else all_zones (served_zones D isoformat t)

  -- `zones`; `none` is a table whose query raises.
  unfoldable pub zones : Option String → Option D.Table → Zones
  unfolding served_zones served_zone
  zones domain none = server_error
  zones domain (some t) = served domain t

-- `peers`; `none` is an API without a peer syncer.
unfoldable pub peers : Option (List PeerConfig) → List String
unfolding get_peer_urls
peers none = []
peers (some known) = get_peer_urls known
