-- ===== src/Tests/System.antt =====
-- The theorems on the program as a whole, at the host in memory.
use directdnsonly.Base.{true, false, some, ◌∷◌, refl, [], arith, string_eq, nat_eq, option_eq}
use directdnsonly.Database.Memory.{memory}
use directdnsonly.Worker.State.{Manager}
use directdnsonly.Backend.Bind
use directdnsonly.Backend.Nsd
use directdnsonly.Worker.Backends.{on_each, delete_single_backend}
use directdnsonly.Worker.Delete.{delete_item, delete_from_backends}
use directdnsonly.System.{at_start, follows, Step, deletes}
use directdnsonly.System.Retries.{Inv, Reaches-Inv}
use directdnsonly.Base.Exec.{ok}
use directdnsonly.Worker.Save.{save_round}
use directdnsonly.Reconciler.Run.{ReconciliationWorker, Round, run}
use directdnsonly.System.Saves.{SavesAll, save_round-Saves}
use directdnsonly.System.Passes.{Passes, begun, run-Passes}
use directdnsonly.System.Rows.{Dropped, Step-Dropped}
use directdnsonly.Tests.Samples.{healthy, host_on, host_on-IsHost, start, delete_known, known}

-- The state behind the delete worker's step
abbrev emptied : Manager (host_on healthy)
emptied =
    (delete_item (host_on healthy) delete_known (record (start healthy) { delete_queue = [] })).1

delete-Step : Step (host_on healthy) (start healthy) emptied
delete-Step = deletes (start healthy) delete_known [] refl

start-Inv : Inv (host_on healthy) (host_on-IsHost healthy) (start healthy)
start-Inv = record {
  saved = (omega arith, (omega arith, tt));
  retried = (omega arith, (omega arith, tt));
}

Reaches-Inv_example : Inv (host_on healthy) (host_on-IsHost healthy) emptied
Reaches-Inv_example =
    Reaches-Inv (host_on healthy) (host_on-IsHost healthy) (start healthy) emptied start-Inv
      (follows at_start delete-Step)

Step-Dropped_example : Dropped (host_on healthy) (host_on-IsHost healthy) "b.org" (start healthy)
unfolding memory delete_item string_eq nat_eq option_eq delete_from_backends on_each
    delete_single_backend Nsd.delete_zone Nsd.reload_zone Bind.delete_zone Bind.update_named_conf
    Bind.reload_zone
Step-Dropped_example =
    Step-Dropped (host_on healthy) (host_on-IsHost healthy) "b.org" (start healthy) emptied known
      delete-Step refl refl

save_round-Saves_example :
    SavesAll (host_on healthy) (start healthy) (save_round (host_on healthy) (start healthy))
save_round-Saves_example =
    save_round-Saves (host_on healthy) (host_on-IsHost healthy) (start healthy)

-- One server that lists nothing that the table has
abbrev poller : ReconciliationWorker
poller = record {
  enabled = true;
  dry_run = false;
  servers = record { hostname = some "da1" } ∷ [];
  interval_seconds = 3600;
  initial_delay = 60;
  stop_event = false;
  has_thread = true;
}

-- A wait that runs out, before a pass in which the server lists one domain
abbrev timeout : Round
timeout = record { is_stopped = false; list_domains = λ s. ok (some ("a.org" ∷ [])) }

-- A wait that the stop event ends
abbrev stopping : Round
stopping = record timeout { is_stopped = true }

run-Passes_example :
    Passes
      (host_on healthy)
      poller
      (begun (host_on healthy) poller timeout (timeout ∷ stopping ∷ []))
      (start healthy)
      (run (host_on healthy) poller timeout (timeout ∷ stopping ∷ []) (start healthy)).1
run-Passes_example =
    run-Passes (host_on healthy) poller timeout (timeout ∷ stopping ∷ []) (start healthy)
