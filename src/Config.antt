-- ===== src/Config.antt =====
-- directdnsonly/config/__init__.py. The package vyper is a parameter.
pub mod Defaults
use directdnsonly.Base.{ℕ, String, Bool, true, false, Option, List, [], ◌∷◌}
use directdnsonly.Base.Exec.{Result, ok}

pub data Value : Type 0 where
  text : String → Value
  number : ℕ → Value
  flag : Bool → Value

-- What the source sets before it reads a value
pub data Setting : Type 0 where
  config_name : String → Setting
  config_path : String → Setting
  env_prefix : String → Setting
  env_key_replacer : String → String → Setting
  automatic_env : Setting

-- The package. `given` is what the environment or a file that has been read holds for a key, and
-- `default_of` the default that was set for it.
pub record Vyper : Type 1 where
  pub State : Type 0
  pub configure : Setting → State → State
  pub set_default : String → Value → State → State
  pub read_in_config : State → Result Bool × State
  pub get : String → State → Option Value
  pub given : String → State → Option Value
  pub default_of : String → State → Option Value

unfoldable pub settings : String → List Setting
settings parent =
    config_name "app"
    ∷ config_path "/etc/directdnsonly"
    ∷ config_path "."
    ∷ config_path "./config"
    ∷ config_path parent
    ∷ env_prefix "DADNS"
    ∷ env_key_replacer "_" "."
    ∷ automatic_env
    ∷ []

-- The defaults, in the order of the calls
unfoldable pub defaults : List (String × Value)
defaults =
    ("log_level", text "info")
    ∷ ("queue_location", text "./data/queues")
    ∷ ("timezone", text "Pacific/Aucland")
    ∷ ("app.listen_port", number 2222)
    ∷ ("app.proxy_support", flag true)
    ∷ ("app.proxy_support_base", text "http://127.0.0.1")
    ∷ ("app.log_level", text "debug")
    ∷ ("app.log_to", text "file")
    ∷ ("app.ssl_enable", text "false")
    ∷ ("app.ssl_cert", text "")
    ∷ ("app.ssl_key", text "")
    ∷ ("app.ssl_bundle", text "")
    ∷ ("app.check_subdomain_owner_in_cluster_domainowners", number 1)
    ∷ ("app.listen_port", number 2222)
    ∷ ("app.token_valid_for_days", number 30)
    ∷ ("app.queue_location", text "conf/queues")
    ∷ ("app.auth_username", text "directdnsonly")
    ∷ ("app.auth_password", text "changeme")
    ∷ ("timezone", text "Pacific/Auckland")
    ∷ ("dns.backends.bind.enabled", flag false)
    ∷ ("dns.backends.bind.zones_dir", text "/etc/named/zones")
    ∷ ("dns.backends.bind.named_conf", text "/etc/named.conf.local")
    ∷ ("dns.backends.nsd.enabled", flag false)
    ∷ ("dns.backends.nsd.zones_dir", text "/etc/nsd/zones")
    ∷ ("dns.backends.nsd.nsd_conf", text "/etc/nsd/nsd.conf.d/zones.conf")
    ∷ ("datastore.type", text "sqlite")
    ∷ ("datastore.port", number 3306)
    ∷ ("datastore.db_location", text "data/directdns.db")
    ∷ ("reconciliation.enabled", flag false)
    ∷ ("reconciliation.dry_run", flag false)
    ∷ ("reconciliation.interval_minutes", number 60)
    ∷ ("reconciliation.verify_ssl", flag true)
    ∷ ("peer_sync.enabled", flag false)
    ∷ ("peer_sync.interval_minutes", number 15)
    ∷ ("peer_sync.auth_username", text "peersync")
    ∷ ("peer_sync.auth_password", text "changeme")
    ∷ []

module _ (V : Vyper) where
  open V use {State, configure, set_default, read_in_config}

  unfoldable pub configure_all : List Setting → State → State
  configure_all [] s = s
  configure_all (x ∷ xs) s = configure_all xs (configure x s)

  unfoldable pub set_defaults : List (String × Value) → State → State
  set_defaults [] s = s
  set_defaults ((k, v) ∷ ds) s = set_defaults ds (set_default k v s)

  -- That no file is found, or that one cannot be read, is logged only.
  unfoldable pub load_config : String → State → State
  load_config parent s =
      (read_in_config (set_defaults defaults (configure_all (settings parent) s))).1
