-- ===== src/PeerSync/Pass/Progress.antt =====
-- What a pass over all peers keeps (directdnsonly/app/peer_sync.py, `_sync_all`).
use mathlib.Core.Path.{subst}
use directdnsonly.Base.{
  String, ◌≡◌, refl, sym, ◌∙◌, Bool, true, false, Option, none, some, List, [], ◌∷◌, if◌then◌else◌,
  truthy, string_eq, inl, inr,
}
use directdnsonly.Base.Exec.{Result, ok, raised}
use directdnsonly.Database.{Domain, Database, IsDatabase}
use directdnsonly.PeerSync.Peers.{PeerConfig, urls}
use directdnsonly.PeerSync.Peers.Known.{IsDistinct, discover-IsDistinct}
use directdnsonly.PeerSync.Zones.{lacks_data, is_newer, sync_from_peer}
use directdnsonly.PeerSync.Zones.Merge.{Kept, is_newer_trans, sync_from_peer-Kept}
use directdnsonly.PeerSync.Pass.{
  Mesh, Syncer, discovered, after_sync, sync_url, sync_peers, sync_all,
}

Kept-trans : (r s : Domain) (o : Option Domain) → Kept r (some s) → Kept s o → Kept r o
Kept-trans r s none h k = k
Kept-trans r s (some o) (d, n, inl p) (e, m, inl q) = (e, m ∙ n, inl (q ∙ p))
Kept-trans r s (some o) (d, n, inl p) (e, m, inr q) = (
  e,
  m ∙ n,
  inr (subst (λ (x : Domain). is_newer o.zone_updated_at x.zone_updated_at ≡ true) p q),
)
Kept-trans r s (some o) (d, n, inr p) (e, m, inl q) = (
  e,
  m ∙ n,
  inr (subst (λ (x : Domain). is_newer x.zone_updated_at r.zone_updated_at ≡ true) (sym q) p),
)
Kept-trans r s (some o) (d, n, inr p) (e, m, inr q) =
    (e, m ∙ n, inr (is_newer_trans o.zone_updated_at s.zone_updated_at r.zone_updated_at q p))

module _ {D : Database} (L : IsDatabase D) (net : Mesh) where
  module _ (k : String) (r : Domain) where
    resync-Kept :
        (peer : PeerConfig) (t : D.Table) (o : Option Domain)
        → D.find k t ≡ o
        → Kept r o
        → Kept r (D.find k (sync_from_peer D (net.zones_at peer) t).1)
    resync-Kept peer t none e kept = elim kept [ ]
    resync-Kept peer t (some s) e kept =
        Kept-trans r s _ kept (sync_from_peer-Kept L (net.zones_at peer) t k s e kept.0)

    after_sync-Kept :
        (peer : PeerConfig) (url : String) (p : Result Bool × D.Table) (w : Syncer D)
        → Kept r (D.find k p.1)
        → Kept r (D.find k (after_sync D net peer url p w).table)
    unfolding after_sync
    after_sync-Kept peer url (ok done, t) w kept = kept
    after_sync-Kept peer url (raised e, t) w kept = kept

    sync_url-Kept :
        (peer : PeerConfig) (url : Option String) (w : Syncer D)
        → Kept r (D.find k w.table)
        → Kept r (D.find k (sync_url D net peer url w).table)
    sync_url-Kept peer none w kept = kept
    sync_url-Kept peer (some url) w kept =
        elim (truthy url)
          as (λ b. Kept r (
            D.find k
              (if b
                then after_sync D net peer url (sync_from_peer D (net.zones_at peer) w.table) w
                else w).table)) [
                  | true ↦
                      after_sync-Kept peer url (sync_from_peer D (net.zones_at peer) w.table) w
                        (resync-Kept peer w.table _ refl kept)
                  | false ↦ kept
                ]

    sync_peers-Kept :
        (peers : List PeerConfig) (w : Syncer D)
        → Kept r (D.find k w.table)
        → Kept r (D.find k (sync_peers D net peers w).table)
    unfolding sync_peers
    sync_peers-Kept [] w kept = kept
    sync_peers-Kept (peer ∷ peers) w kept =
        sync_peers-Kept peers (sync_url D net peer peer.url w) (sync_url-Kept peer peer.url w kept)

  -- Over any database and for any answers of the peers, a row that holds a zone still stands after a pass over all
  -- peers, holds a zone and has the host it had, and it is the row as before or has a newer time
  -- stamp.
  pub sync_all-Kept :
      (k : String) (r : Domain) (w : Syncer D)
      → D.find k w.table ≡ some r
      → lacks_data r ≡ false
      → Kept r (D.find k (sync_all D net w).table)
  unfolding sync_all
  sync_all-Kept k r w found has =
      sync_peers-Kept k r w.peers w (subst (Kept r) (sym found) (has, refl, inl refl))

module _ (D : Database) (net : Mesh) where
  discovered-IsDistinct :
      (peer : PeerConfig) (o : Option (List String)) (peers : List PeerConfig)
      → IsDistinct (urls peers)
      → IsDistinct (urls (discovered D net peer o peers))
  discovered-IsDistinct peer none peers d = d
  discovered-IsDistinct peer (some remote) peers d = discover-IsDistinct peer remote peers d

  after_sync-IsDistinct :
      (peer : PeerConfig) (url : String) (p : Result Bool × D.Table) (w : Syncer D)
      → IsDistinct (urls w.peers)
      → IsDistinct (urls (after_sync D net peer url p w).peers)
  unfolding after_sync
  after_sync-IsDistinct peer url (ok done, t) w d =
      discovered-IsDistinct peer (net.peers_at peer) w.peers d
  after_sync-IsDistinct peer url (raised e, t) w d = d

  sync_url-IsDistinct :
      (peer : PeerConfig) (url : Option String) (w : Syncer D)
      → IsDistinct (urls w.peers)
      → IsDistinct (urls (sync_url D net peer url w).peers)
  sync_url-IsDistinct peer none w d = d
  sync_url-IsDistinct peer (some url) w d =
      elim (truthy url)
        as (λ b. IsDistinct (
          urls
            (if b
              then after_sync D net peer url (sync_from_peer D (net.zones_at peer) w.table) w
              else w).peers)) [
                | true ↦
                    after_sync-IsDistinct peer url (sync_from_peer D (net.zones_at peer) w.table) w
                      d
                | false ↦ d
              ]

  sync_peers-IsDistinct :
      (peers : List PeerConfig) (w : Syncer D)
      → IsDistinct (urls w.peers)
      → IsDistinct (urls (sync_peers D net peers w).peers)
  unfolding sync_peers
  sync_peers-IsDistinct [] w d = d
  sync_peers-IsDistinct (peer ∷ peers) w d =
      sync_peers-IsDistinct peers (sync_url D net peer peer.url w)
        (sync_url-IsDistinct peer peer.url w d)

  -- If no URL is known twice, none is after a pass over all peers.
  pub sync_all-IsDistinct :
      (w : Syncer D) → IsDistinct (urls w.peers) → IsDistinct (urls (sync_all D net w).peers)
  unfolding sync_all
  sync_all-IsDistinct w d = sync_peers-IsDistinct w.peers w d
