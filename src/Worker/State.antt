-- ===== src/Worker/State.antt =====
-- directdnsonly/worker.py: the queue items, the constants, and the state of `WorkerManager`.
use directdnsonly.Base.{ℕ, String, Bool, Option, List, [], ◌∷◌}
use directdnsonly.Base.Exec.{Exec}
use directdnsonly.Database.{Domain, Database, IsDatabase}
use directdnsonly.Queue.{Queues, IsFifo}
use directdnsonly.Backend.{DnsBackend}
use mathlib.Core.List.{Perm}

-- A queue item is a dict; `none` is a key that it lacks. `client_ip`, which is only logged, is
-- left out.
pub record Item : Type 0 where
  pub domain : Option String
  pub zone_file : Option String
  pub hostname : Option String
  pub username : Option String
  pub source : Option String
  pub failed_backends : Option (List String)
  pub retry_count : Option ℕ
  pub retry_after : Option ℕ

abbrev pub max_retries : ℕ
max_retries = 5

-- BACKOFF_SECONDS
abbrev pub backoff_seconds : List ℕ
backoff_seconds = 30 ∷ 120 ∷ 300 ∷ 900 ∷ 1800 ∷ []

-- What the manager calls: the database, the queues, the class of the backends, dnspython's parser,
-- the n-th readings of `time.time()` (in seconds) and `utcnow()`, and the order in which
-- `as_completed` hands back the results of threads.
pub record Host : Type 1 where
  pub database : Database
  pub queues : Queues Item
  pub Instance : Type 0
  pub backend : DnsBackend Instance
  pub from_text : String → String → Option (List ℕ)
  pub time : ℕ → ℕ
  pub utcnow : ℕ → ℕ
  pub as_completed : List (String × Bool) → List (String × Bool)

pub record IsHost (H : Host) : Type 0 where
  pub database : IsDatabase H.database
  pub queues : IsFifo H.queues
  -- every thread's result comes back once, in some order
  pub as_completed : (rs : List (String × Bool)) → Perm (H.as_completed rs) rs

-- `backends` is the dict of instances that the registry has cached, and `reads` counts the
-- readings of the clock. `session_record` is the row that the delete worker's session still holds as
-- it was loaded: the session lives as long as the worker, and only a commit or a rollback expires it.
pub record Manager (H : Host) : Type 0 where
  pub table : H.database.Table
  pub save_queue : H.queues.Queue
  pub delete_queue : H.queues.Queue
  pub retry_queue : H.queues.Queue
  pub dead_letter_count : ℕ
  pub backends : List (String × H.Instance)
  pub reads : ℕ
  pub session_record : Option Domain

module _ {H : Host} where
  -- Code on the table, run on the manager's.
  abbrev pub on_table : {A : Type 0} → Exec H.database.Table A → Exec (Manager H) A
  on_table f m = let (r, t) = f m.table in (r, record m { table = t })
