-- ===== src/Tests/PeerSync.antt =====
-- The theorems on the peer sync, at the samples.
use directdnsonly.Base.{
  ℕ, String, ◌≡◌, ◌≢◌, refl, Option, none, some, List, [], ◌∷◌, string_eq, option_eq, nat_eq, ltb,
}
use directdnsonly.Base.Exec.{ok}
use directdnsonly.Database.Memory.{memory, memory-IsDatabase}
use directdnsonly.PeerSync.Peers.{PeerConfig}
use directdnsonly.PeerSync.Health.{failure_threshold, health, record_success}
use directdnsonly.PeerSync.Health.Threshold.{failures, record_failure_lem}
use directdnsonly.PeerSync.Zones.{Entry, Peer}
use directdnsonly.PeerSync.Zones.Merge.{Kept}
use directdnsonly.PeerSync.Pass.{Mesh, Syncer, sync_all}
use directdnsonly.PeerSync.Pass.Progress.{sync_all-Kept}
use directdnsonly.Tests.Samples.{known, one_table}

abbrev first : PeerConfig
first = record { url = some "http://one"; username = some "u"; password = some "p" }

abbrev remote : List String
remote = "http://two" ∷ "" ∷ "http://one" ∷ "http://two" ∷ []

record_failure_lem_example :
    let after = failures 3 "http://one" (record_success 5 "http://one" []) in
    ((health "http://one" after).consecutive_failures ≡ 3)
    × ((health "http://one" after).healthy ≡ ltb 3 failure_threshold)
    × ((k : String) → k ≢ "http://one" → health k after ≡ health k [])
record_failure_lem_example = record_failure_lem 3 5 "http://one" []

-- A zone for the sample's row and one for an unknown domain
abbrev offers : List Entry
offers =
    record {
      domain = some "b.org";
      zone_updated_at = some "9";
      hostname = some "da7";
      username = none;
    }
    ∷ record {
      domain = some "n.org";
      zone_updated_at = some "x";
      hostname = some "da7";
      username = none;
    }
    ∷ []

abbrev peer : (String → Option ℕ) → Peer
peer read = record {
  zones = ok (record { status_code = 200; json = ok offers });
  zone = λ d. ok (record { status_code = 200; json = ok (some "new") });
  fromisoformat = read;
}

-- Every peer answers as above and knows one more.
abbrev net : Mesh
net = record {
  zones_at = λ p. peer (λ s. some 9);
  peers_at = λ p. some ("http://two" ∷ []);
  utcnow = λ n. n;
}

abbrev worker : Syncer memory
worker = record { peers = first ∷ []; peer_health = []; table = one_table; reads = 0 }

sync_all-Kept_example : Kept known (memory.find "b.org" (sync_all memory net worker).table)
unfolding memory string_eq
sync_all-Kept_example = sync_all-Kept memory-IsDatabase net "b.org" known worker refl refl
