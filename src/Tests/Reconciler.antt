-- ===== src/Tests/Reconciler.antt =====
-- The theorems on the reconciler, at the samples.
use mathlib.Core.List.{Mem}
use directdnsonly.Base.{
  String, ◌≡◌, ◌≢◌, refl, false, Option, none, some, List, [], ◌∷◌, ◌++◌, if◌then◌else◌, ◌==◌,
  string_eq, option_eq, nat_eq, arith,
}
use directdnsonly.Base.Exec.{Result, ok}
use directdnsonly.Database.Memory.{memory}
use directdnsonly.Backend.Bind
use directdnsonly.Backend.Nsd
use directdnsonly.Backend.Dispatch.{BackendInstance, bind, nsd}
use directdnsonly.Worker.Delete.{is_foreign}
use directdnsonly.Reconciler.Poll.{Server}
use directdnsonly.Reconciler.Poll.Reporters.{lists}
use directdnsonly.Reconciler.Compare.{orphan_item}
use directdnsonly.Reconciler.Heal.{heal_backends}
use directdnsonly.Reconciler.Heal.Items.{due_heals, Queued, heal_backends_lem}
use directdnsonly.Reconciler.Pass.{reconcile_all}
use directdnsonly.Reconciler.Pass.Orphans.{
  due_deletes, delete_queue-reconcile_all, unreachable_master_queued,
}
use directdnsonly.Tests.Samples.{healthy, host_on, host_on-IsHost, known, both, start}

-- The server da1 is down, any other lists one domain.
abbrev one_down : String → Result (Option (List String))
one_down h = if h == "da1" then ok none else ok (some ("c.org" ∷ []))

-- Every server lists the domain of the sample's row.
abbrev all_up : String → Result (Option (List String))
all_up h = ok (some ("b.org" ∷ []))

abbrev servers : List Server
servers = record { hostname = some "da1" } ∷ record { hostname = some "da2" } ∷ []

delete_queue-reconcile_all_example :
    (host_on healthy).queues.items
      (reconcile_all (host_on healthy) one_down servers false (start healthy)).1.delete_queue
    ≡ (host_on healthy).queues.items (start healthy).delete_queue
      ++ (if false
          then []
          else due_deletes one_down servers ((host_on healthy).database.all (start healthy).table))
delete_queue-reconcile_all_example =
    delete_queue-reconcile_all one_down servers (host_on healthy) (host_on-IsHost healthy)
      (start healthy) false

other_silent : (g : String) → g ≢ "da1" → lists "b.org" (one_down g) ≡ false
unfolding string_eq
other_silent g h = ground arith

unreachable_master_queued_example :
    Mem (orphan_item known) (
      (host_on healthy).queues.items
        (reconcile_all (host_on healthy) one_down servers false (start healthy)).1.delete_queue)
    × (is_foreign known (orphan_item known) ≡ false)
unfolding memory string_eq option_eq
unreachable_master_queued_example =
    unreachable_master_queued one_down servers (host_on healthy) (host_on-IsHost healthy)
      (start healthy) "b.org" "da1" known refl refl refl refl other_silent

exists_query :
    (d : String) (s : BackendInstance) → ((host_on healthy).backend.zone_exists d s).1 ≡ s
unfolding Bind.zone_exists Nsd.zone_exists
exists_query d (bind b) = refl
exists_query d (nsd b) = refl

heal_backends_lem_example :
    Queued
      (host_on healthy)
      (host_on-IsHost healthy)
      exists_query
      false
      (due_heals (host_on healthy) ((host_on healthy).database.all (start healthy).table) both)
      (start healthy)
      (heal_backends (host_on healthy) false (start healthy))
heal_backends_lem_example =
    heal_backends_lem (host_on healthy) (host_on-IsHost healthy) exists_query false (start healthy)
