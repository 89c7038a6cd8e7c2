-- ===== src/System/Lifecycle.antt =====
-- directdnsonly/worker.py: `start` and `stop` of the WorkerManager, with those of the reconciler and of
-- the peer sync that it makes.
use directdnsonly.Base.{
  Bool, true, false, Option, none, some, ◌≡◌, sym, ap, inl, inr, Bool-cases, if◌then◌else◌,
}
use mathlib.Core.Option.{some-injective}
use directdnsonly.Reconciler.Run as ReconcilerRun
use directdnsonly.Reconciler.Run.{ReconciliationWorker}
use directdnsonly.PeerSync.Run as PeerSyncRun
use directdnsonly.PeerSync.Run.{PeerSyncWorker}

-- The fields that `start` and `stop` read or write; `has_threads` tells that the three workers' threads
-- were made.
pub record WorkerManager : Type 0 where
  pub running : Bool
  pub has_threads : Bool
  pub reconciler : Option ReconciliationWorker
  pub peer_syncer : Option PeerSyncWorker

-- What the constructors make of the two configurations
pub record Configured : Type 0 where
  pub reconciler : ReconciliationWorker
  pub peer_syncer : PeerSyncWorker

-- A manager as the constructor makes it
abbrev pub new_manager : WorkerManager
new_manager = record { running = false; has_threads = false; reconciler = none; peer_syncer = none }

-- The parts of `start`
abbrev pub start_threads : WorkerManager → WorkerManager
start_threads m = record m { running = true; has_threads = true }

unfoldable pub start_reconciler : Configured → WorkerManager → WorkerManager
unfolding ReconcilerRun.start
start_reconciler c m = record m { reconciler = some (ReconcilerRun.start c.reconciler) }

unfoldable pub start_syncer : Configured → WorkerManager → WorkerManager
unfolding PeerSyncRun.start
start_syncer c m = record m { peer_syncer = some (PeerSyncRun.start c.peer_syncer) }

unfoldable pub start : Configured → WorkerManager → WorkerManager
unfolding start_reconciler start_syncer
start c m = if m.running then m else start_syncer c (start_reconciler c (start_threads m))

abbrev stopped_reconciler : Option ReconciliationWorker → Option ReconciliationWorker
stopped_reconciler none = none
stopped_reconciler (some w) = some (ReconcilerRun.stop w)

abbrev stopped_syncer : Option PeerSyncWorker → Option PeerSyncWorker
stopped_syncer none = none
stopped_syncer (some w) = some (PeerSyncRun.stop w)

unfoldable pub stop : WorkerManager → WorkerManager
stop m = record m {
  running = false;
  reconciler = stopped_reconciler m.reconciler;
  peer_syncer = stopped_syncer m.peer_syncer;
}

-- Neither of the two threads goes on: each, if there is one, sees the stop event.
abbrev pub Quiet : WorkerManager → Type 0
Quiet m =
    ((w : ReconciliationWorker) → m.reconciler ≡ some w → w.stop_event ≡ true)
    × ((w : PeerSyncWorker) → m.peer_syncer ≡ some w → w.stop_event ≡ true)

-- A manager that is stopped leaves no thread of the reconciler or the peer sync that goes on.
pub stop-Quiet : (m : WorkerManager) → Quiet (stop m)
unfolding stop ReconcilerRun.stop PeerSyncRun.stop
stop-Quiet m = (reconciler_stops m.reconciler, syncer_stops m.peer_syncer)
  where
    reconciler_stops :
        (o : Option ReconciliationWorker) (w : ReconciliationWorker)
        → stopped_reconciler o ≡ some w
        → w.stop_event ≡ true
    reconciler_stops none w e = absurd cc
    reconciler_stops (some v) w e =
        ap (λ (x : ReconciliationWorker). x.stop_event) (some-injective _ _ (sym e))

    syncer_stops :
        (o : Option PeerSyncWorker) (w : PeerSyncWorker)
        → stopped_syncer o ≡ some w
        → w.stop_event ≡ true
    syncer_stops none w e = absurd cc
    syncer_stops (some v) w e =
        ap (λ (x : PeerSyncWorker). x.stop_event) (some-injective _ _ (sym e))

-- A second start changes nothing.
start_idem : (c : Configured) (m : WorkerManager) → start c (start c m) ≡ start c m
unfolding start
start_idem c m = elim (Bool-cases m.running) [ inl on ↦ rw (on, start) | inr off ↦ rw (off, start) ]
