-- ===== src/Tests/Exchange.antt =====
-- The theorems on the exchange of zones, the registry and the migration, at samples.
use directdnsonly.Base.{
  ◌↔◌, ◌==◌, ==_iff, Bool-cases, inl, inr, ℕ, zero, suc, ◌+◌, ◌-◌, ap, String, ◌≡◌, refl, true,
  false, not, Option, none, some, List, [], ◌∷◌, string_eq, nat_eq, option_eq, arith, truthy,
}
use directdnsonly.Database.{Domain}
use directdnsonly.Database.Memory.{Rows, memory, memory-IsDatabase, memory-IsReliable}
use directdnsonly.PeerSync.Zones.{sync_from_peer}
use directdnsonly.Exchange.{IsClock, peer_of, merged}
use directdnsonly.Exchange.Refines.{sync_from_peer-merged, sync_from_peer-returns}
use directdnsonly.Exchange.Converges.{zone_in, synced, synced-agree}
use directdnsonly.Backend.Dispatch.{BackendInstance}
use directdnsonly.Registry.{Machine, InstanceConfig, new_registry, initialize_backends}
use directdnsonly.Registry.Loaded.{find_instance, find_config, IsLoadedAs, initialize_backends_lem}
use directdnsonly.Tests.Samples.{known, one_table}

-- A clock whose texts count in strokes
abbrev strokes : ℕ → String
strokes zero = "|"
strokes (suc n) = String.◌∷◌ "|" (strokes n)

abbrev counted : String → ℕ
counted String.[] = 0
counted (String.◌∷◌ c s) = suc (counted s)

abbrev read : String → Option ℕ
read s = some (counted s - 1)

counted-strokes : (n : ℕ) → counted (strokes n) ≡ n + 1
counted-strokes zero = refl
counted-strokes (suc n) = omega (arith, counted-strokes n)

strokes-truthy : (n : ℕ) → truthy (strokes n) ≡ true
strokes-truthy n = elim (Bool-cases (strokes n == "")) [
  | inl same ↦
      absurd (omega (arith, ap counted ((==_iff (strokes n) "").0 same), counted-strokes n))
  | inr apart ↦ ap not apart
]

strokes-IsClock : IsClock strokes read
strokes-IsClock = record {
  reads_back = λ t. ap some (omega (arith, counted-strokes t));
  not_blank = strokes-truthy;
}

abbrev newer : Domain
newer = record known { zone_data = some "new"; zone_updated_at = some 8 }

abbrev other_rows : Rows
other_rows = (newer ∷ [], (refl, tt))

abbrev other_table : memory.Table
unfolding memory
other_table = other_rows

sync_from_peer-merged_example :
    memory.find "b.org"
      (sync_from_peer memory (peer_of memory strokes read other_table) one_table).1
    ≡ merged (memory.find "b.org" one_table) (memory.find "b.org" other_table)
sync_from_peer-merged_example =
    sync_from_peer-merged memory-IsDatabase memory-IsDatabase strokes-IsClock other_table one_table
      (sync_from_peer-returns memory-IsDatabase memory-IsReliable memory-IsDatabase strokes-IsClock
        other_table one_table)
      "b.org"

synced-agree_example :
    zone_in (
      memory.find "b.org"
        (synced memory-IsDatabase memory-IsReliable strokes-IsClock other_table one_table))
    ≡ zone_in (
        memory.find "b.org" (
          synced memory-IsDatabase memory-IsReliable strokes-IsClock
            (synced memory-IsDatabase memory-IsReliable strokes-IsClock other_table one_table)
            other_table))
unfolding memory string_eq
synced-agree_example =
    synced-agree memory-IsDatabase memory-IsReliable strokes-IsClock one_table other_table "b.org"
      refl

abbrev machine : Machine
machine = record {
  named_runs = true;
  nsd_control_found = false;
  set_up = λ d. true;
  touch = λ f. true;
  zones_in = λ d. [];
  content = λ f. none;
}

abbrev config : List (String × InstanceConfig)
config =
    (
      "bind",
      record {
        type_ = some "bind";
        enabled = true;
        zones_dir = some "/z";
        named_conf = some "/n";
        nsd_conf = none;
      },
    )
    ∷ (
      "nsd",
      record {
        type_ = some "nsd";
        enabled = true;
        zones_dir = none;
        named_conf = none;
        nsd_conf = none;
      },
    )
    ∷ []

initialize_backends_lem_example :
    let r = initialize_backends machine config new_registry in
    ((k : String) (b : BackendInstance)
      → (find_instance k r.backend_instances ≡ some b)
        ↔ ((c : InstanceConfig) × (find_config k config ≡ some c) × IsLoadedAs machine c b))
    × ((m' : Machine) (later : List (String × InstanceConfig)) → initialize_backends m' later r ≡ r)
unfolding string_eq
initialize_backends_lem_example = initialize_backends_lem machine config (refl, (refl, tt))
