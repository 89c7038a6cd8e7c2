-- ===== src/Reconciler/Run.antt =====
-- directdnsonly/app/reconciler.py: the life of the reconciler's thread, from `start` to `stop`. The
-- thread's waits for the stop event, and what the servers answer in each pass, are parameters.
use Prim.Native.Nat.{◌/◌}
use directdnsonly.Base.{
  ℕ, String, Bool, true, false, not, ◌&&◌, Option, List, [], ◌∷◌, if◌then◌else◌, ltb,
}
use directdnsonly.Base.Exec.{Exec, Result, ok, ◌>>◌}
use directdnsonly.Worker.State.{Host, Manager}
use directdnsonly.Reconciler.Poll.{Server}
use directdnsonly.Reconciler.Pass.{LastRun, reconcile_all}

-- The fields that `start`, `stop` and `_run` read or write; `has_thread` tells that a thread was made.
pub record ReconciliationWorker : Type 0 where
  pub enabled : Bool
  pub dry_run : Bool
  pub servers : List Server
  pub interval_seconds : ℕ
  pub initial_delay : ℕ
  pub stop_event : Bool
  pub has_thread : Bool

abbrev started : ReconciliationWorker → List Server → ReconciliationWorker
started w [] = w
started w (s ∷ servers) = record w { stop_event = false; has_thread = true }

unfoldable pub start : ReconciliationWorker → ReconciliationWorker
start w = if not w.enabled then w else started w w.servers

unfoldable pub stop : ReconciliationWorker → ReconciliationWorker
stop w = record w { stop_event = true }

-- What `get_status` reports; `last_run` is `none` before the first pass has ended.
pub record ReconcilerStatus : Type 0 where
  pub enabled : Bool
  pub alive : Bool
  pub dry_run : Bool
  pub interval_minutes : ℕ
  pub last_run : Option LastRun

-- `get_status`, where `is_alive` tells that the thread, if one was made, is alive
unfoldable pub get_status : Bool → Option LastRun → ReconciliationWorker → ReconcilerStatus
get_status is_alive last_run w = record {
  enabled = w.enabled;
  alive = w.has_thread && is_alive;
  dry_run = w.dry_run;
  interval_minutes = w.interval_seconds / 60;
  last_run = last_run;
}

-- A wait for the stop event, which tells whether it was set, and the answers to the pass behind it
pub record Round : Type 0 where
  pub is_stopped : Bool
  pub list_domains : String → Result (Option (List String))

-- How far the thread has come: it waits for the next pass, or has ended on the stop event. An
-- exception ends it, too.
pub data Life : Type 0 where
  waiting : Life
  ended : Life

module _ (H : Host) (w : ReconciliationWorker) where
  -- The loop, over the waits that have ended so far
  unfoldable pub run_loop : List Round → Exec (Manager H) Life
  run_loop [] m = (ok waiting, m)
  run_loop (r ∷ rounds) m =
      let next = reconcile_all H r.list_domains w.servers w.dry_run >> run_loop rounds in
      if r.is_stopped then (ok ended, m) else next m

  -- `_run`: only a delay is waited for before the first pass.
  unfoldable pub run : Round → List Round → Exec (Manager H) Life
  unfolding run_loop
  run first rounds m =
      if ltb 0 w.initial_delay && first.is_stopped
      then (ok ended, m)
      else (reconcile_all H first.list_domains w.servers w.dry_run >> run_loop rounds) m
