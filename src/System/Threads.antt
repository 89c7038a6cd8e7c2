-- ===== src/System/Threads.antt =====
-- The loop of the peer sync's thread (directdnsonly/app/peer_sync.py) as a sequence of steps.
use mathlib.Core.Path.{subst}
use directdnsonly.Base.{
  refl, String, ◌≡◌, sym, Bool, true, false, Option, none, some, List, [], ◌∷◌, if◌then◌else◌,
}
use directdnsonly.Base.Exec.{Result, ok, raised}
use directdnsonly.Base.{truthy}
use directdnsonly.Worker.State.{Host, Manager}
use directdnsonly.PeerSync.Peers.{PeerConfig}
use directdnsonly.PeerSync.Zones.{sync_from_peer}
use directdnsonly.PeerSync.Pass.{Mesh, Syncer, sync_all, sync_peers, sync_url, after_sync}
use directdnsonly.PeerSync.Run as PeerSyncRun
use directdnsonly.System.{syncs, Reaches, at_start, follows}

module _ (H : Host) where
  open H use {database, queues}

  pub Reaches-trans : {m m' m'' : Manager H} → Reaches H m m' → Reaches H m' m'' → Reaches H m m''
  Reaches-trans r at_start = r
  Reaches-trans r (follows s t) = follows (Reaches-trans r s) t

  module _ (net : Mesh) where
    url-Reaches :
        (peer : PeerConfig) (url : Option String) (w : Syncer database) (m : Manager H)
        → Reaches H
            (record m { table = w.table })
            (record m { table = (sync_url database net peer url w).table })
    unfolding after_sync
    url-Reaches peer none w m = at_start
    url-Reaches peer (some url) w m = asked (truthy url)
      where
        synced :
            (p : Result Bool × database.Table)
            → Reaches H (record m { table = w.table }) (record m { table = p.1 })
            → Reaches H
                (record m { table = w.table })
                (record m { table = (after_sync database net peer url p w).table })
        synced (ok d, t) h = h
        synced (raised e, t) h = h

        asked :
            (b : Bool)
            → Reaches H
                (record m { table = w.table })
                (record m {
                  table =
                      (if b
                        then after_sync database net peer url
                            (sync_from_peer database (net.zones_at peer) w.table)
                            w
                        else w).table;
                })
        asked true =
            synced (sync_from_peer database (net.zones_at peer) w.table)
              (follows at_start (syncs (net.zones_at peer) (record m { table = w.table })))
        asked false = at_start

    peers-Reaches :
        (peers : List PeerConfig) (w : Syncer database) (m : Manager H)
        → Reaches H
            (record m { table = w.table })
            (record m { table = (sync_peers database net peers w).table })
    unfolding sync_peers
    peers-Reaches [] w m = at_start
    peers-Reaches (peer ∷ peers) w m =
        Reaches-trans (url-Reaches peer peer.url w m)
          (peers-Reaches peers (sync_url database net peer peer.url w) m)

    -- A pass over all peers is a sequence of syncs.
    pub sync_all-Reaches :
        (w : Syncer database) (m : Manager H)
        → w.table ≡ m.table
        → Reaches H m (record m { table = (sync_all database net w).table })
    unfolding sync_all
    sync_all-Reaches w m same =
        subst
          (λ t.
            Reaches H (record m { table = t })
              (record m { table = (sync_all database net w).table }))
          same (peers-Reaches w.peers w m)

  syncs_loop-Reaches :
      (rounds : List PeerSyncRun.Round) (w : Syncer database) (m : Manager H)
      → w.table ≡ m.table
      → Reaches H m (record m { table = (PeerSyncRun.run_loop database rounds w).table })
  unfolding PeerSyncRun.run_loop
  syncs_loop-Reaches [] w m same =
      subst (λ t. Reaches H m (record m { table = t })) (sym same) at_start
  syncs_loop-Reaches (r ∷ rounds) w m same = goes r.is_stopped (
      syncs_loop-Reaches rounds (sync_all database r.mesh w)
        (record m { table = (sync_all database r.mesh w).table }) refl)
    where
      next : Syncer database
      next = PeerSyncRun.run_loop database rounds (sync_all database r.mesh w)

      goes :
          (b : Bool)
          → Reaches H
              (record m { table = (sync_all database r.mesh w).table })
              (record m { table = next.table })
          → Reaches H m (record m { table = (if b then w else next).table })
      goes true rest = subst (λ t. Reaches H m (record m { table = t })) (sym same) at_start
      goes false rest = Reaches-trans (sync_all-Reaches r.mesh w m same) rest

  -- All that the peer sync's thread does to the table is a sequence of steps, each the sync from one
  -- peer.
  pub sync_run-Reaches :
      (first : Mesh) (rounds : List PeerSyncRun.Round) (w : Syncer database) (m : Manager H)
      → w.table ≡ m.table
      → Reaches H m (record m { table = (PeerSyncRun.run database first rounds w).table })
  unfolding PeerSyncRun.run
  sync_run-Reaches first rounds w m same = Reaches-trans (sync_all-Reaches first w m same) (
      syncs_loop-Reaches rounds (sync_all database first w)
        (record m { table = (sync_all database first w).table }) refl)
