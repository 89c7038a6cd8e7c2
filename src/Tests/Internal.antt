-- ===== src/Tests/Internal.antt =====
-- The theorems on the internal API, at the samples.
use directdnsonly.Base.{
  ℕ, String, ◌≡◌, Option, none, some, truthy, true, false, ◌==◌, nat_eq, option_eq, string_eq,
  contains,
}
use directdnsonly.Base.Exec.{ok}
use directdnsonly.Database.Memory.{memory, memory-IsDatabase}
use directdnsonly.PeerSync.Peers.{PeerConfig}
use directdnsonly.Internal.{list_zones, Zones, all_zones, one_zone, zones}
use directdnsonly.PeerSync.Zones.{Response}
use directdnsonly.Internal.Served.{names, zones-listed}
use directdnsonly.Tests.Samples.{one_table}

abbrev nine : ℕ → String
nine n = "9"

zones-listed_example :
    let list : Zones =
      all_zones
        (record { status_code = 200; json = ok (list_zones nine (memory.all one_table)) }) in
    (zones memory nine none (some one_table) ≡ list)
    × (truthy "b.org" ≡ false → zones memory nine (some "b.org") (some one_table) ≡ list)
    × (truthy "b.org" ≡ true
        → (answer : Response (Option String)) × (zones memory nine (some "b.org") (some one_table)
            ≡ one_zone answer)
          × ((answer.status_code == 200)
              ≡ contains (names (list_zones nine (memory.all one_table))) (some "b.org")))
zones-listed_example = zones-listed memory-IsDatabase nine "b.org" one_table

abbrev one : PeerConfig
one = record { url = some "http://one"; username = some "u"; password = some "p" }

abbrev two : PeerConfig
two = record one { url = some "http://two" }
