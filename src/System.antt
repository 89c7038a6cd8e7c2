-- ===== src/System.antt =====
-- The program as a whole: the steps that its threads and handlers make on the shared queues and the
-- table (directdnsonly/worker.py, with app/api/admin.py, app/reconciler.py and app/peer_sync.py).
pub mod Items
pub mod Lifecycle
pub mod Parts
pub mod Passes
pub mod Publish
pub mod Retries
pub mod Rows
pub mod Saves
pub mod Stays
pub mod Threads
pub mod Withdraw
use directdnsonly.Base.{ℕ, String, ◌≡◌, Bool, true, Option, none, some, List}
use directdnsonly.Base.Exec.{Result}
use directdnsonly.Worker.State.{Item, Host, Manager}
use directdnsonly.Worker.Retry.{retry_round}
use directdnsonly.Worker.Save.{process_item}
use directdnsonly.Worker.Delete.{delete_item}
use directdnsonly.Reconciler.Poll.{Server}
use directdnsonly.Reconciler.Pass.{reconcile_all}
use directdnsonly.PeerSync.Zones.{Peer, sync_from_peer}
use directdnsonly.Admin.{Request, answer_post}

module _ (H : Host) where
  open H use {database, queues}

  -- A worker takes the oldest item of its queue and handles it as a whole.
  pub data Step : Manager H → Manager H → Type 0 where
    handles : (r : Request) (m : Manager H) → Step m (answer_post H r m).1
    saves :
        (m : Manager H) (item : Item) (q : queues.Queue)
        → queues.get_nowait m.save_queue ≡ some (item, q)
        → Step m (process_item H item (record m { save_queue = q })).1
    deletes :
        (m : Manager H) (item : Item) (q : queues.Queue)
        → queues.get_nowait m.delete_queue ≡ some (item, q)
        → Step m (delete_item H item (record m { delete_queue = q })).1
    drains : (m m' : Manager H) → retry_round H m ≡ some m' → Step m m'
    reconciles :
        (poll : String → Result (Option (List String))) (servers : List Server) (dry_run : Bool)
        (m : Manager H)
        → Step m (reconcile_all H poll servers dry_run m).1
    syncs :
        (peer : Peer) (m : Manager H)
        → Step m (record m { table = (sync_from_peer database peer m.table).1 })

  -- What any number of steps leads to
  pub data Reaches (m : Manager H) : Manager H → Type 0 where
    at_start : Reaches m m
    follows : {m' m'' : Manager H} → Reaches m m' → Step m' m'' → Reaches m m''
