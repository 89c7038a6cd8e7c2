-- ===== src/Main/Starts.antt =====
-- How a start of directdnsonly/main.py ends, and what it leaves behind.
use mathlib.Core.Path.{subst}
use directdnsonly.Reconciler.Run as ReconcilerRun
use directdnsonly.Reconciler.Run.{ReconciliationWorker}
use directdnsonly.PeerSync.Run as PeerSyncRun
use directdnsonly.PeerSync.Run.{PeerSyncWorker}
use directdnsonly.PeerSync.Peers.{PeerConfig}
use directdnsonly.Reconciler.Poll as Poll
use directdnsonly.Base.{
  ◌⊎◌, sym, Bool-cases, inl, inr, List, [], ◌∷◌, true, false, Option, none, some, ◌≡◌, ◌≢◌, refl,
  ◌∙◌, arith,
}
use directdnsonly.Base.Exec.{Exec, Result, ok, raised, pure, ◌>>◌}
use directdnsonly.System.Lifecycle
use directdnsonly.System.Lifecycle.{WorkerManager, Quiet, stop-Quiet, new_manager}
use directdnsonly.Main.{
  Outside, Server, End, served, exited, failed, configure_logging, load_backends, call, fresh,
  on_manager, connect, run_manager, configure_server, serve, connected, handled, body, main,
}

-- A manager that does nothing any more, if there is one
abbrev Stopped : Option WorkerManager → Type 0
Stopped none = Unit
Stopped (some m) = (m.running ≡ false) × Quiet m

-- What a step leaves behind if it raises nothing
abbrev Post : {A : Type 0} → (A → Server → Type 0) → Result A × Server → Type 0
Post Q (ok a, s) = Q a s
Post Q (raised e, s) = Unit {0}

on_manager-Stopped : (o : Option WorkerManager) → Stopped (on_manager Lifecycle.stop o)
unfolding Lifecycle.stop
on_manager-Stopped none = tt
on_manager-Stopped (some m) = (refl, stop-Quiet m)

module _ (O : Outside) where
  open O use {ends, configured, get_string}

  -- A thread of the reconciler goes on exactly if it is enabled and has servers.
  abbrev pub Reconciles : ReconciliationWorker → ReconciliationWorker → Type 0
  Reconciles c w =
      (w ≡ record c { stop_event = w.stop_event; has_thread = w.has_thread })
      × (c.enabled ≡ true → c.servers ≢ [] → (w.has_thread ≡ true) × (w.stop_event ≡ false))
      × (c.enabled ≡ false → w ≡ c)
      × (c.servers ≡ [] → w ≡ c)

  -- A thread of the peer sync goes on exactly if it is enabled and has peers.
  abbrev pub Syncs : PeerSyncWorker → PeerSyncWorker → Type 0
  Syncs c w =
      (w ≡ record c { stop_event = w.stop_event; has_thread = w.has_thread })
      × (c.enabled ≡ true → c.peers ≢ [] → (w.has_thread ≡ true) × (w.stop_event ≡ false))
      × (c.enabled ≡ false → w ≡ c)
      × (c.peers ≡ [] → w ≡ c)

  -- The manager runs with the threads of its three workers, and with a reconciler and a peer sync as
  -- configured.
  abbrev pub IsRunning : Option WorkerManager → Type 0
  IsRunning manager =
      (m : WorkerManager) × (r : ReconciliationWorker) × (p : PeerSyncWorker) × (manager ≡ some m)
      × (m.running ≡ true)
      × (m.has_threads ≡ true)
      × (m.reconciler ≡ some r)
      × Reconciles configured.reconciler r
      × (m.peer_syncer ≡ some p)
      × Syncs configured.peer_syncer p

  reconciler-Reconciles : (c : ReconciliationWorker) → Reconciles c (ReconcilerRun.start c)
  unfolding ReconcilerRun.start
  reconciler-Reconciles c = go c.servers refl (Bool-cases c.enabled)
    where
      go :
          (xs : List Poll.Server)
          → c.servers ≡ xs
          → (c.enabled ≡ true) ⊎ (c.enabled ≡ false)
          → Reconciles c (ReconcilerRun.start c)
      go xs e (inr off) =
          rw (off, ReconcilerRun.start) (refl, (λ on. absurd cc), (λ _. refl), λ _. refl)
      go [] e (inl on) =
          rw (on, e, ReconcilerRun.start)
            (refl, (λ _ some_server. absurd (some_server refl)), (λ off. absurd cc), λ _. refl)
      go (x ∷ xs) e (inl on) =
          rw (on, e, ReconcilerRun.start)
            (refl, (λ _ _. (refl, refl)), (λ off. absurd cc), λ none_there. absurd cc)

  syncer-Syncs : (c : PeerSyncWorker) → Syncs c (PeerSyncRun.start c)
  unfolding PeerSyncRun.start
  syncer-Syncs c = go c.peers refl (Bool-cases c.enabled)
    where
      go :
          (xs : List PeerConfig)
          → c.peers ≡ xs
          → (c.enabled ≡ true) ⊎ (c.enabled ≡ false)
          → Syncs c (PeerSyncRun.start c)
      go xs e (inr off) =
          rw (off, PeerSyncRun.start) (refl, (λ on. absurd cc), (λ _. refl), λ _. refl)
      go [] e (inl on) =
          rw (on, e, PeerSyncRun.start)
            (refl, (λ _ some_peer. absurd (some_peer refl)), (λ off. absurd cc), λ _. refl)
      go (x ∷ xs) e (inl on) =
          rw (on, e, PeerSyncRun.start)
            (refl, (λ _ _. (refl, refl)), (λ off. absurd cc), λ none_there. absurd cc)

  -- The manager that a start has made and started
  abbrev started : Option WorkerManager
  started = some (Lifecycle.start configured new_manager)

  started-IsRunning : IsRunning started
  unfolding Lifecycle.start Lifecycle.start_reconciler Lifecycle.start_syncer
  started-IsRunning = (
    Lifecycle.start configured new_manager,
    ReconcilerRun.start configured.reconciler,
    PeerSyncRun.start configured.peer_syncer,
    refl,
    refl,
    refl,
    refl,
    reconciler-Reconciles configured.reconciler,
    refl,
    syncer-Syncs configured.peer_syncer,
  )

  -- How a start may end
  abbrev pub Ended : End × Server → Type 0
  Ended (served, s) =
      IsRunning s.manager
      × (s.has_engine ≡ true)
      × (s.stops_manager ≡ true)
      × (s.credentials ≡ some (get_string "app.auth_username", get_string "app.auth_password"))
      × (s.peer_credentials
          ≡ some (get_string "peer_sync.auth_username", get_string "peer_sync.auth_password"))
  Ended (exited n, s) = (n ≡ 1) × (s.manager ≡ none) × (ends connect ≢ ok tt)
  Ended (failed e, s) = Stopped s.manager

  run_manager_done :
      (s : Server) → (run_manager O s).0 ≡ ok tt → (run_manager O s).1.manager ≡ started
  unfolding run_manager Lifecycle.start
  run_manager_done s h = ground arith

  configure_server_done :
      (s : Server)
      → (configure_server O s).0 ≡ ok tt
      → ((configure_server O s).1.manager ≡ s.manager)
        × ((configure_server O s).1.credentials
            ≡ some (get_string "app.auth_username", get_string "app.auth_password"))
  unfolding configure_server
  configure_server_done s h = ground arith

  serve_done :
      (s : Server)
      → (serve O s).0 ≡ ok tt
      → ((serve O s).1.manager ≡ s.manager)
        × ((serve O s).1.has_engine ≡ true)
        × ((serve O s).1.stops_manager ≡ true)
        × ((serve O s).1.credentials ≡ s.credentials)
        × ((serve O s).1.peer_credentials
            ≡ some (get_string "peer_sync.auth_username", get_string "peer_sync.auth_password"))
  unfolding serve
  serve_done s h = ground arith

  -- A step, and the state that it leaves if it raises nothing
  step :
      (R : End → Server → Type 0) (m : Exec Server (Unit {0})) (s : Server) (k : Exec Server End)
      → ((m s).0 ≡ ok tt → Post R (k (m s).1))
      → Post R ((m >> k) s)
  step R m s k h = goes (m s) h
    where
      goes :
          (p : Result (Unit {0}) × Server)
          → (p.0 ≡ ok tt → Post R (k p.1))
          → Post R (((λ _. p) >> k) s)
      goes (ok u, s') h = h refl
      goes (raised e, s') h = tt

  connected-Post :
      (r : Result (Unit {0})) (s : Server)
      → ends connect ≡ r
      → s.manager ≡ none
      → Post (λ e t. Ended (e, t)) (connected O r s)
  connected-Post (raised e) s c h = (refl, h, λ reached. cc (c, reached))
  connected-Post (ok u) s c h =
      let s1 = (run_manager O s).1 in
      let s2 = (configure_server O s1).1 in
      let serves : Exec Server End = serve O >> pure served in
      let sets_up : Exec Server End = configure_server O >> serves in
      step (λ e t. Ended (e, t)) (run_manager O) s sets_up
        λ made.
          step (λ e t. Ended (e, t)) (configure_server O) s1 serves
            λ set.
              step (λ e t. Ended (e, t)) (serve O) s2 (pure served)
                λ done.
                  let (same, engine, stops, kept, peers) = serve_done s2 done in
                  let (manager_kept, own) = configure_server_done s1 set in
                  (
                    subst IsRunning (sym (same ∙ manager_kept ∙ run_manager_done s made))
                        started-IsRunning,
                    engine,
                    stops,
                    kept ∙ own,
                    peers,
                  )

  body-Post : Post (λ e t. Ended (e, t)) (body O fresh)
  unfolding body
  body-Post =
      let reaches : Exec Server End = connected O (ends connect) in
      step (λ e t. Ended (e, t)) (call O configure_logging) fresh (call O load_backends >> reaches)
        λ logs.
          step (λ e t. Ended (e, t)) (call O load_backends) fresh reaches
            λ loads. connected-Post (ends connect) fresh refl refl

  handled-Ended : (p : Result End × Server) → Post (λ e t. Ended (e, t)) p → Ended (handled O p)
  handled-Ended (ok e, s) h = h
  handled-Ended (raised x, s) h = on_manager-Stopped s.manager

  -- A start either serves, and its manager then runs with the threads of its three workers, and with
  -- that of the reconciler if it is enabled and has servers, and that of the peer sync if it is
  -- enabled and has peers, and is stopped with the engine, and the server has the credentials of `app` and, for the peers, those of `peer_sync`; or
  -- exits with status 1 because the database cannot be reached, before a manager is made; or fails by
  -- an exception of any of its calls, and the manager, if one was made, is then stopped, with the
  -- threads of the reconciler and the peer sync told to end.
  pub main-Ended : Ended (main O)
  unfolding main
  main-Ended = handled-Ended (body O fresh) body-Post
