-- ===== src/Main.antt =====
-- directdnsonly/main.py. The libraries that a start calls are parameters: how each call ends.
pub mod Starts
pub mod Access
use directdnsonly.Base.{
  ℕ, String, Bool, true, false, not, Option, none, some, List, [], ◌∷◌, ◌++◌, ◌<>◌, if◌then◌else◌,
  ◌==◌, string_eq,
}
use directdnsonly.Base.Exec.{Exec, Exc, Result, ok, raised, pure, ◌>>=◌, ◌>>◌}
use directdnsonly.Base.Text.{upper}
use directdnsonly.Config.{Value, text, number, flag}
use directdnsonly.System.Lifecycle
use directdnsonly.System.Lifecycle.{
  WorkerManager, Configured, new_manager, start_threads, start_reconciler, start_syncer,
}

-- The calls of a start that may raise
pub data Call : Type 0 where
  configure_logging : Call
  load_backends : Call
  connect : Call
  make_manager : Call
  make_reconciler : Call
  make_syncer : Call
  update_server : Call
  update_ssl : Call
  mount : Call
  start_engine : Call
  block : Call

-- What a start depends on: how each call ends, the configuration, and what the constructors of the
-- pollers make of it. `get_string`, `get_int` and `get_bool` convert a value; `is_true` is its truth value.
pub record Outside : Type 0 where
  pub ends : Call → Result (Unit {0})
  pub get : String → Option Value
  pub get_string : String → String
  pub get_int : String → ℕ
  pub get_bool : String → Bool
  pub is_true : Option Value → Bool
  pub version : String
  pub configured : Configured

-- What a start leaves behind
pub record Server : Type 0 where
  pub manager : Option WorkerManager
  pub settings : List (String × Option Value)
  pub server_header : Option String
  pub logs_access : Bool
  pub credentials : Option (String × String)
  pub peer_credentials : Option (String × String)
  pub has_engine : Bool
  pub stops_manager : Bool

-- How a process ends, or that it serves until its engine stops
pub data End : Type 0 where
  served : End
  exited : ℕ → End
  failed : Exc → End

abbrev pub fresh : Server
fresh = record {
  manager = none;
  settings = [];
  server_header = none;
  logs_access = true;
  credentials = none;
  peer_credentials = none;
  has_engine = false;
  stops_manager = false;
}

abbrev pub on_manager :
    (WorkerManager → WorkerManager) → Option WorkerManager → Option WorkerManager
on_manager f none = none
on_manager f (some m) = some (f m)

module _ (O : Outside) where
  open O use {ends, get, get_string, get_int, get_bool, is_true, version, configured}

  abbrev pub call : Call → Exec Server (Unit {0})
  call c s = (ends c, s)

  abbrev pub modify : (Server → Server) → Exec Server (Unit {0})
  modify f s = (ok tt, f s)

  unfoldable pub server_settings : List (String × Option Value)
  server_settings =
      ("server.socket_host", some (text "0.0.0.0"))
      ∷ ("server.socket_port", some (number (get_int "app.listen_port")))
      ∷ ("tools.proxy.on", some (flag (get_bool "app.proxy_support")))
      ∷ ("tools.proxy.base", some (text (get_string "app.proxy_support_base")))
      ∷ ("tools.auth_basic.on", some (flag true))
      ∷ ("tools.auth_basic.realm", some (text "dadns"))
      ∷ ("tools.response_headers.on", some (flag true))
      ∷ ("environment", get "environment")
      ∷ []

  unfoldable pub ssl_settings : List (String × Option Value)
  ssl_settings =
      let bundle = get "app.ssl_bundle" in
      ("server.ssl_module", some (text "builtin"))
      ∷ ("server.ssl_certificate", get "app.ssl_cert")
      ∷ ("server.ssl_private_key", get "app.ssl_key")
      ∷ (if is_true bundle then ("server.ssl_certificate_chain", bundle) ∷ [] else [])

  -- `WorkerManager(...)` and its `start`, whose two constructors may raise
  unfoldable pub run_manager : Exec Server (Unit {0})
  unfolding start_reconciler start_syncer
  run_manager = do
    call make_manager
    modify (λ s. record s { manager = some (start_threads new_manager) })
    call make_reconciler
    modify (λ s. record s { manager = on_manager (start_reconciler configured) s.manager })
    call make_syncer
    modify (λ s. record s { manager = on_manager (start_syncer configured) s.manager })

  -- The settings of CherryPy
  unfoldable pub configure_server : Exec Server (Unit {0})
  unfolding server_settings ssl_settings upper
  configure_server = do
    call update_server
    modify (λ s. record s {
      settings = server_settings;
      server_header = some ("DirectDNS v" <> version);
      credentials = some (get_string "app.auth_username", get_string "app.auth_password");
    })
    if get_bool "app.ssl_enable"
        then (do call update_ssl; modify (λ s. record s { settings = s.settings ++ ssl_settings }))
        else pure tt
    modify (λ s. record s { logs_access = upper (get_string "app.log_level") == "DEBUG" })

  -- The mounted applications and the engine, until it stops
  unfoldable pub serve : Exec Server (Unit {0})
  serve = do
    call mount
    modify (λ s. record s {
      peer_credentials =
          some (get_string "peer_sync.auth_username", get_string "peer_sync.auth_password");
    })
    call start_engine
    modify (λ s. record s { has_engine = true; stops_manager = true })
    call block

  -- A database that cannot be reached ends the process.
  abbrev pub connected : Result (Unit {0}) → Exec Server End
  connected (raised e) = pure (exited 1)
  connected (ok u) = do run_manager; configure_server; serve; pure served

  unfoldable pub body : Exec Server End
  unfolding run_manager configure_server serve
  body = do call configure_logging; call load_backends; connected (ends connect)

  -- The `except` stops a manager that was made.
  abbrev pub handled : Result End × Server → End × Server
  handled (ok e, s) = (e, s)
  handled (raised x, s) = (failed x, record s { manager = on_manager Lifecycle.stop s.manager })

  unfoldable pub main : End × Server
  unfolding body
  main = handled (body fresh)
