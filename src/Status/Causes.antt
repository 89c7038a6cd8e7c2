-- ===== src/Status/Causes.antt =====
-- When the overall status is ok (directdnsonly/app/api/status.py, `_compute_overall`).
use directdnsonly.Base.{
  ◌-◌, ◌≤◌, ◌≡◌, ◌↔◌, refl, ap, Bool, true, List, [], ◌∷◌, map, keep, length, all_of, arith,
}
use directdnsonly.Worker.State.{Host, IsHost, Manager}
use directdnsonly.PeerSync.Peers.{PeerConfig}
use directdnsonly.PeerSync.Health.{HealthMap}
use directdnsonly.Status.{
  health_of, get_peer_status, queue_status, Alive, compute_overall, healthy_status,
}

is_empty : {A : Type 0} (xs : List A) → (length xs ≡ 0) ↔ (xs ≡ [])
is_empty [] = (λ h. refl, λ h. refl)
is_empty (x ∷ xs) = (λ h. absurd (omega arith), λ h. ap length h)

length-keep : {A : Type 0} (p : A → Bool) (xs : List A) → length (keep p xs) ≤ length xs
length-keep p [] = omega arith
length-keep p (x ∷ xs) = ground (arith, length-keep p xs)

all_kept :
    {A : Type 0} (p : A → Bool) (xs : List A)
    → (length xs - length (keep p xs) ≡ 0) ↔ (all_of p xs ≡ true)
all_kept p [] = (λ h. refl, λ h. refl)
all_kept p (x ∷ xs) = ground (arith, all_kept p xs, length-keep p xs)

-- If the host keeps its assumptions, the status of a manager is ok exactly if the save and the delete worker are alive, the retry queue
-- is empty, there are no dead letters and every peer of the list is healthy. The retry worker may be dead.
pub compute_overall_lem :
    (H : Host) (L : IsHost H) (alive : Alive) (peers : List PeerConfig) (hs : HealthMap)
    (m : Manager H)
    → (compute_overall (queue_status H alive (get_peer_status peers hs) m) ≡ healthy_status) ↔ (
        (alive.save ≡ true)
        × (alive.delete ≡ true)
        × (H.queues.items m.retry_queue ≡ [])
        × (m.dead_letter_count ≡ 0)
        × (all_of (λ p. p.1.healthy) (map (health_of hs) peers) ≡ true))
unfolding compute_overall queue_status get_peer_status
compute_overall_lem H L alive peers hs m = ground (
  arith,
  is_empty (H.queues.items m.retry_queue),
  L.queues.qsize-items m.retry_queue,
  all_kept (λ p. p.1.healthy) (map (health_of hs) peers),
)
