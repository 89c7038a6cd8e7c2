-- ===== src/Status.antt =====
-- directdnsonly/app/api/status.py: the overall status, on what `queue_status` of directdnsonly/worker.py
-- and `get_peer_status` of directdnsonly/app/peer_sync.py report.
pub mod Causes
use directdnsonly.Base.{
  ℕ, ◌+◌, ◌-◌, String, Bool, true, false, not, ◌||◌, Option, none, some, List, [], ◌∷◌,
  if◌then◌else◌, map, keep, length, ltb,
}
use directdnsonly.Base.Exec.{Result, ok, raised}
use directdnsonly.Reconciler.Run.{ReconcilerStatus}
use directdnsonly.Worker.State.{Host, Manager}
use directdnsonly.PeerSync.Peers.{PeerConfig}
use directdnsonly.PeerSync.Health.{Health, HealthMap, health}

-- The peers' part of the status: the healths of the peers and their counts.
pub record PeerStatus : Type 0 where
  pub peers : List (String × Health)
  pub total : ℕ
  pub healthy : ℕ
  pub degraded : ℕ

-- `peer.get("url", "")`
abbrev pub url_of : PeerConfig → String
url_of p = elim p.url [ none ↦ "" | some u ↦ u ]

abbrev pub health_of : HealthMap → PeerConfig → String × Health
health_of hs p = (url_of p, health (url_of p) hs)

unfoldable pub get_peer_status : List PeerConfig → HealthMap → PeerStatus
get_peer_status peers hs =
    let entries = map (health_of hs) peers in
    let healthy = length (keep (λ p. p.1.healthy) entries) in
    record {
      peers = entries;
      total = length entries;
      healthy = healthy;
      degraded = length entries - healthy;
    }

pub record QueueStatus : Type 0 where
  pub save_queue_size : ℕ
  pub delete_queue_size : ℕ
  pub retry_queue_size : ℕ
  pub dead_letters : ℕ
  pub save_worker_alive : Bool
  pub delete_worker_alive : Bool
  pub retry_worker_alive : Bool
  pub peer_sync : PeerStatus

-- Which worker threads are alive.
pub record Alive : Type 0 where
  pub save : Bool
  pub delete : Bool
  pub retry : Bool

module _ (H : Host) where
  open H use {queues}

  -- `queue_status`, with a peer syncer; the reconciler's part is passed on as it is and is left out.
  unfoldable pub queue_status : Alive → PeerStatus → Manager H → QueueStatus
  queue_status alive peer_sync m = record {
    save_queue_size = queues.qsize m.save_queue;
    delete_queue_size = queues.qsize m.delete_queue;
    retry_queue_size = queues.qsize m.retry_queue;
    dead_letters = m.dead_letter_count;
    save_worker_alive = alive.save;
    delete_worker_alive = alive.delete;
    retry_worker_alive = alive.retry;
    peer_sync = peer_sync;
  }

pub data Overall : Type 0 where
  healthy_status : Overall
  degraded_status : Overall
  error_status : Overall

unfoldable pub compute_overall : QueueStatus → Overall
compute_overall qs =
    if not qs.save_worker_alive || not qs.delete_worker_alive
    then error_status
    else if ltb 0 qs.retry_queue_size || (ltb 0 qs.dead_letters || ltb 0 qs.peer_sync.degraded)
    then degraded_status
    else healthy_status

-- The document that the handler answers with
pub record Document : Type 0 where
  pub status : Overall
  pub queues : QueueStatus
  pub reconciler : ReconcilerStatus
  pub zones_total : ℕ

-- `_zone_count`: a query that raises counts as zero.
unfoldable pub zone_count : Result ℕ → ℕ
zone_count (ok n) = n
zone_count (raised e) = 0

-- `_build`
unfoldable pub build : QueueStatus → ReconcilerStatus → Result ℕ → Document
unfolding compute_overall zone_count
build qs reconciler counted = record {
  status = compute_overall qs;
  queues = qs;
  reconciler = reconciler;
  zones_total = zone_count counted;
}
