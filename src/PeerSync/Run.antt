-- ===== src/PeerSync/Run.antt =====
-- directdnsonly/app/peer_sync.py: the life of the peer sync's thread, from `start` to `stop`. The
-- thread's waits for the stop event, and what the peers answer in each pass, are parameters.
use directdnsonly.Base.{Bool, true, false, not, List, [], ◌∷◌, if◌then◌else◌}
use directdnsonly.Database.{Database}
use directdnsonly.PeerSync.Peers.{PeerConfig}
use directdnsonly.PeerSync.Pass.{Mesh, Syncer, sync_all}

-- The fields that `start` and `stop` read or write; `has_thread` tells that a thread was made.
pub record PeerSyncWorker : Type 0 where
  pub enabled : Bool
  pub peers : List PeerConfig
  pub stop_event : Bool
  pub has_thread : Bool

abbrev started : PeerSyncWorker → List PeerConfig → PeerSyncWorker
started w [] = w
started w (p ∷ peers) = record w { stop_event = false; has_thread = true }

unfoldable pub start : PeerSyncWorker → PeerSyncWorker
start w = if not w.enabled then w else started w w.peers

unfoldable pub stop : PeerSyncWorker → PeerSyncWorker
stop w = record w { stop_event = true }

-- A wait for the stop event, which tells whether it was set, and the answers to the pass behind it
pub record Round : Type 0 where
  pub is_stopped : Bool
  pub mesh : Mesh

module _ (D : Database) where
  -- The loop, over the waits that have ended so far
  unfoldable pub run_loop : List Round → Syncer D → Syncer D
  run_loop [] w = w
  run_loop (r ∷ rounds) w =
      let next = run_loop rounds (sync_all D r.mesh w) in if r.is_stopped then w else next

  -- `_run`
  unfoldable pub run : Mesh → List Round → Syncer D → Syncer D
  unfolding run_loop
  run first rounds w = run_loop rounds (sync_all D first w)
