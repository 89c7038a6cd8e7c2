-- ===== src/System/Passes.antt =====
-- The life of the reconciler's thread (directdnsonly/app/reconciler.py, `_run`) as its passes.
use mathlib.Core.Path.{subst}
use directdnsonly.Base.{
  ◌≡◌, refl, String, Bool, true, false, Option, List, [], ◌∷◌, ◌&&◌, if◌then◌else◌, ltb,
}
use directdnsonly.Base.Exec.{Exec, Result, ok, raised, Exc, ◌>>◌}
use directdnsonly.Worker.State.{Host, Manager}
use directdnsonly.Reconciler.Pass.{LastRun, reconcile_all}
use directdnsonly.Reconciler.Run.{ReconciliationWorker, Round, Life, ended, run_loop, run}
use directdnsonly.System.{Step, reconciles, Reaches, at_start, follows}
use directdnsonly.System.Threads.{Reaches-trans}

abbrev pub Poll : Type 0
Poll = String → Result (Option (List String))

-- The answers to the passes that come before a wait ends with the stop event
abbrev pub until_stop : List Round → List Poll
until_stop [] = []
until_stop (r ∷ rounds) =
    let later = until_stop rounds in if r.is_stopped then [] else r.list_domains ∷ later

module _ (H : Host) (w : ReconciliationWorker) where
  -- A stop during the delay before the first pass lets none begin; without a delay the first begins.
  abbrev pub begun : Round → List Round → List Poll
  begun first rounds =
      if ltb 0 w.initial_delay && first.is_stopped
      then []
      else first.list_domains ∷ until_stop rounds

  -- Whole passes with the servers and the dry run of the worker, one for each of the answers, one
  -- after the other; a pass that raises is the last.
  pub data Passes : List Poll → Manager H → Manager H → Type 0 where
    none_left : (m : Manager H) → Passes [] m m
    returns :
        (poll : Poll) (polls : List Poll) (last_run : LastRun) (m m' m'' : Manager H)
        → reconcile_all H poll w.servers w.dry_run m ≡ (ok last_run, m')
        → Passes polls m' m''
        → Passes (poll ∷ polls) m m''
    fails :
        (poll : Poll) (polls : List Poll) (e : Exc) (m m' : Manager H)
        → reconcile_all H poll w.servers w.dry_run m ≡ (raised e, m')
        → Passes (poll ∷ polls) m m'

  -- Each of them is a step of the program.
  Passes-Reaches : {polls : List Poll} {m m' : Manager H} → Passes polls m m' → Reaches H m m'
  Passes-Reaches (none_left m) = at_start
  Passes-Reaches (returns poll polls l m m' m'' e rest) =
      Reaches-trans H
        (follows at_start (
          subst (λ (p : Result LastRun × Manager H). Step H m p.1) e
            (reconciles poll w.servers w.dry_run m)))
        (Passes-Reaches rest)
  Passes-Reaches (fails poll polls x m m' e) = follows at_start (
      subst (λ (p : Result LastRun × Manager H). Step H m p.1) e
        (reconciles poll w.servers w.dry_run m))

  pass-Passes :
      (poll : Poll) (polls : List Poll) (next : Exec (Manager H) Life) (m : Manager H)
      → ((m' : Manager H) → Passes polls m' (next m').1)
      → Passes (poll ∷ polls) m ((reconcile_all H poll w.servers w.dry_run >> next) m).1
  pass-Passes poll polls next m rest = goes (reconcile_all H poll w.servers w.dry_run m) refl
    where
      goes :
          (p : Result LastRun × Manager H)
          → reconcile_all H poll w.servers w.dry_run m ≡ p
          → Passes (poll ∷ polls) m (((λ _. p) >> next) m).1
      goes (ok l, m') e = returns poll polls l m m' (next m').1 e (rest m')
      goes (raised x, m') e = fails poll polls x m m' e

  either-Passes :
      (b : Bool) (polls : List Poll) (m : Manager H) (q : Result Life × Manager H)
      → Passes polls m q.1
      → Passes (if b then [] else polls) m (if b then (ok ended, m) else q).1
  either-Passes true polls m q h = none_left m
  either-Passes false polls m q h = h

  loop-Passes :
      (rounds : List Round) (m : Manager H) → Passes (until_stop rounds) m (run_loop H w rounds m).1
  unfolding run_loop
  loop-Passes [] m = none_left m
  loop-Passes (r ∷ rounds) m =
      either-Passes r.is_stopped (r.list_domains ∷ until_stop rounds) m _ (
        pass-Passes r.list_domains (until_stop rounds) (run_loop H w rounds) m (loop-Passes rounds))

  -- What the reconciler's thread has done so far is a whole pass, with the servers and the dry run of
  -- the worker, for the first round, unless there is a delay and the stop event ends it, and for
  -- each later round before the first that the stop event ends, in their order, up to a pass that
  -- raises, which is the last.
  pub run-Passes :
      (first : Round) (rounds : List Round) (m : Manager H)
      → Passes (begun first rounds) m (run H w first rounds m).1
  unfolding run
  run-Passes first rounds m =
      either-Passes (ltb 0 w.initial_delay && first.is_stopped)
        (first.list_domains ∷ until_stop rounds) m _
        (pass-Passes first.list_domains (until_stop rounds) (run_loop H w rounds) m
          (loop-Passes rounds))
