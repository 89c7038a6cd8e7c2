-- ===== src/PeerSync/Pass.antt =====
-- directdnsonly/app/peer_sync.py: `_sync_all`. What the peers answer, and the clock, are parameters.
pub mod Progress
use directdnsonly.Base.{
  ℕ, ◌+◌, String, Bool, Option, none, some, List, [], ◌∷◌, if◌then◌else◌, truthy, string_eq,
}
use directdnsonly.Base.Exec.{Result, ok, raised}
use directdnsonly.Database.{Database}
use directdnsonly.PeerSync.Peers.{PeerConfig, discover}
use directdnsonly.PeerSync.Health.{HealthMap, record_success, record_failure}
use directdnsonly.PeerSync.Zones.{Peer, sync_from_peer}

-- The other instances: what a peer answers on zones, and its list of peers, `none` where the request
-- fails or has another status than 200.
pub record Mesh : Type 0 where
  pub zones_at : PeerConfig → Peer
  pub peers_at : PeerConfig → Option (List String)
  pub utcnow : ℕ → ℕ

module _ (D : Database) where
  -- The worker's fields, and the table that it writes. `reads` counts the readings of the clock.
  pub record Syncer : Type 0 where
    pub peers : List PeerConfig
    pub peer_health : HealthMap
    pub table : D.Table
    pub reads : ℕ

  module _ (net : Mesh) where
    abbrev pub discovered : PeerConfig → Option (List String) → List PeerConfig → List PeerConfig
    discovered peer none peers = peers
    discovered peer (some remote_urls) peers = discover peer remote_urls peers

    -- What follows the sync from a peer: discovery and a success, or a failure.
    unfoldable pub after_sync : PeerConfig → String → Result Bool × D.Table → Syncer → Syncer
    unfolding discover record_success record_failure
    after_sync peer url (ok done, t) w = record w {
      table = t;
      peers = discovered peer (net.peers_at peer) w.peers;
      peer_health = record_success (net.utcnow w.reads) url w.peer_health;
      reads = w.reads + 1;
    }
    after_sync peer url (raised e, t) w = record w {
      table = t;
      peer_health = record_failure url w.peer_health;
    }

    abbrev pub sync_url : PeerConfig → Option String → Syncer → Syncer
    sync_url peer none w = w
    sync_url peer (some url) w =
        if truthy url
        then after_sync peer url (sync_from_peer D (net.zones_at peer) w.table) w
        else w

    unfoldable pub sync_peers : List PeerConfig → Syncer → Syncer
    unfolding after_sync sync_from_peer
    sync_peers [] w = w
    sync_peers (peer ∷ peers) w = sync_peers peers (sync_url peer peer.url w)

    -- `_sync_all` runs over the peers that are known when it begins.
    unfoldable pub sync_all : Syncer → Syncer
    sync_all w = sync_peers w.peers w
