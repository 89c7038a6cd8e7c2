-- ===== src/PeerSync/Health.antt =====
-- directdnsonly/app/peer_sync.py: the health of the peers.
pub mod Threshold
use directdnsonly.Base.{
  ℕ, zero, suc, ◌+◌, String, Bool, true, false, ◌&&◌, Option, none, some, List, [], ◌∷◌,
  if◌then◌else◌, ◌==◌, string_eq, leb, length,
}
use directdnsonly.PeerSync.Peers.{PeerConfig}

abbrev pub failure_threshold : ℕ
failure_threshold = 3

pub record Health : Type 0 where
  pub consecutive_failures : ℕ
  pub healthy : Bool
  pub last_seen : Option ℕ

-- The default of a peer that has not been met.
abbrev pub fresh : Health
fresh = record { consecutive_failures = 0; healthy = true; last_seen = none }

-- The dict of states by URL.
abbrev pub HealthMap : Type 0
HealthMap = List (String × Health)

-- `_health`: the state of a URL, or the default.
abbrev pub health : String → HealthMap → Health
health url [] = fresh
health url ((k, h) ∷ rest) = if url == k then h else health url rest

unfoldable pub set_health : String → Health → HealthMap → HealthMap
set_health url h [] = (url, h) ∷ []
set_health url h ((k, g) ∷ rest) =
    if url == k then (url, h) ∷ rest else (k, g) ∷ set_health url h rest

unfoldable pub record_success : ℕ → String → HealthMap → HealthMap
record_success now url hs =
    set_health url (record { consecutive_failures = 0; healthy = true; last_seen = some now }) hs

abbrev pub failed : Health → Health
failed h =
    let n = h.consecutive_failures + 1 in
    record h {
      consecutive_failures = n;
      healthy = if h.healthy && leb failure_threshold n then false else h.healthy;
    }

unfoldable pub record_failure : String → HealthMap → HealthMap
record_failure url hs = set_health url (failed (health url hs)) hs
