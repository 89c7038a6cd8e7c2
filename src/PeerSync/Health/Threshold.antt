-- ===== src/PeerSync/Health/Threshold.antt =====
-- When a peer counts as degraded (directdnsonly/app/peer_sync.py, `_record_failure` and
-- `_record_success`).
use directdnsonly.Base.{
  ℕ, zero, suc, String, ◌≡◌, ◌≢◌, true, some, [], ◌∷◌, if◌then◌else◌, ◌==◌, string_eq, ltb, arith,
}
use directdnsonly.PeerSync.Health.{
  Health, HealthMap, failure_threshold, health, set_health, failed, record_success, record_failure,
}

health-set_health :
    (k url : String) (h : Health) (hs : HealthMap)
    → health k (set_health url h hs) ≡ (if k == url then h else health k hs)
unfolding set_health
health-set_health k url h [] = ground arith
health-set_health k url h ((j, g) ∷ hs) = ground (arith, health-set_health k url h hs)

-- `n` failures of a URL in a row
abbrev pub failures : ℕ → String → HealthMap → HealthMap
failures zero url hs = hs
failures (suc n) url hs = record_failure url (failures n url hs)

health-record_failure :
    (k url : String) (hs : HealthMap)
    → health k (record_failure url hs) ≡ (if k == url then failed (health url hs) else health k hs)
unfolding record_failure
health-record_failure k url hs = health-set_health k url (failed (health url hs)) hs

abbrev after_failures : ℕ → ℕ → String → HealthMap → HealthMap
after_failures n now url hs = failures n url (record_success now url hs)

health-after_failures :
    (n now : ℕ) (url : String) (hs : HealthMap)
    → ((health url (after_failures n now url hs)).consecutive_failures ≡ n)
      × ((health url (after_failures n now url hs)).healthy ≡ ltb n failure_threshold)
unfolding record_success
health-after_failures zero now url hs = ground (
  arith,
  health-set_health url url
      (record { consecutive_failures = 0; healthy = true; last_seen = some now }) hs,
)
health-after_failures (suc n) now url hs = ground (
  arith,
  health-record_failure url url (after_failures n now url hs),
  health-after_failures n now url hs,
)

other_health :
    (n now : ℕ) (k url : String) (hs : HealthMap)
    → k ≢ url
    → health k (after_failures n now url hs) ≡ health k hs
unfolding record_success
other_health zero now k url hs apart = ground (
  arith,
  health-set_health k url
      (record { consecutive_failures = 0; healthy = true; last_seen = some now }) hs,
)
other_health (suc n) now k url hs apart = ground (
  arith,
  health-record_failure k url (after_failures n now url hs),
  other_health n now k url hs apart,
)

-- After a success and `n` failures of a URL in a row, it has `n` failures counted and is healthy exactly
-- if `n` is below three; every other URL has the state it had.
pub record_failure_lem :
    (n now : ℕ) (url : String) (hs : HealthMap)
    → let after = failures n url (record_success now url hs) in
      ((health url after).consecutive_failures ≡ n)
      × ((health url after).healthy ≡ ltb n failure_threshold)
      × ((k : String) → k ≢ url → health k after ≡ health k hs)
record_failure_lem n now url hs = (
  (health-after_failures n now url hs).0,
  (health-after_failures n now url hs).1,
  λ k apart. other_health n now k url hs apart,
)
