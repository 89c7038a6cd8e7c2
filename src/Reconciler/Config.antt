-- ===== src/Reconciler/Config.antt =====
-- directdnsonly/app/reconciler.py: the constructor, on the `reconciliation` part of the configuration.
use Prim.Native.Nat.{◌*◌}
use directdnsonly.Base.{ℕ, Bool, false, ◌≡◌, Option, none, some, List, [], arith}
use directdnsonly.Reconciler.Poll.{Server}
use directdnsonly.Reconciler.Pass.{LastRun}
use directdnsonly.Reconciler.Run.{ReconciliationWorker, start, get_status}

-- The settings that the life of the thread depends on; `none` is a key that is missing.
pub record ReconciliationConfig : Type 0 where
  pub enabled : Option Bool
  pub interval_minutes : Option ℕ
  pub directadmin_servers : Option (List Server)
  pub dry_run : Option Bool
  pub initial_delay_minutes : Option ℕ

-- `config.get(key, default)`
abbrev pub get {ℓ} : {A : Type ℓ} → Option A → A → A
get none default = default
get (some a) default = a

unfoldable pub init : ReconciliationConfig → ReconciliationWorker
init config = record {
  enabled = get config.enabled false;
  dry_run = get config.dry_run false;
  servers = get config.directadmin_servers [];
  interval_seconds = get config.interval_minutes 60 * 60;
  initial_delay = get config.initial_delay_minutes 0 * 60;
  stop_event = false;
  has_thread = false;
}

-- The status shows the interval that is configured, before and after the start.
interval_minutes-start :
    (config : ReconciliationConfig) (is_alive : Bool) (run : Option LastRun)
    → ((get_status is_alive run (init config)).interval_minutes ≡ get config.interval_minutes 60)
      × ((get_status is_alive run (start (init config))).interval_minutes
          ≡ get config.interval_minutes 60)
unfolding init start get_status
interval_minutes-start config is_alive run = ground arith
