-- ===== src/Tests/Status.antt =====
-- The theorem on the status, at the samples.
use directdnsonly.Base.{◌≡◌, ◌↔◌, true, false, some, List, [], ◌∷◌, map, all_of, string_eq}
use directdnsonly.PeerSync.Peers.{PeerConfig}
use directdnsonly.PeerSync.Health.{HealthMap}
use directdnsonly.Status.{
  Alive, health_of, get_peer_status, queue_status, compute_overall, healthy_status,
}
use directdnsonly.Status.Causes.{compute_overall_lem}
use directdnsonly.Tests.Samples.{healthy, host_on, host_on-IsHost, start}

abbrev no_retry : Alive
no_retry = record { save = true; delete = true; retry = false }

abbrev one_peer : List PeerConfig
one_peer = record { url = some "http://one"; username = some "u"; password = some "p" } ∷ []

abbrev met : HealthMap
met = ("http://one", record { consecutive_failures = 1; healthy = true; last_seen = some 4 }) ∷ []

compute_overall_lem_example :
    (compute_overall
        (queue_status (host_on healthy) no_retry (get_peer_status one_peer met) (start healthy))
      ≡ healthy_status)
    ↔ ((no_retry.save ≡ true)
        × (no_retry.delete ≡ true)
        × ((host_on healthy).queues.items (start healthy).retry_queue ≡ [])
        × ((start healthy).dead_letter_count ≡ 0)
        × (all_of (λ p. p.1.healthy) (map (health_of met) one_peer) ≡ true))
compute_overall_lem_example =
    compute_overall_lem (host_on healthy) (host_on-IsHost healthy) no_retry one_peer met
      (start healthy)
