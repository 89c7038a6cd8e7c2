-- ===== src/Admin/Debug.antt =====
-- directdnsonly/app/api/admin.py: `queue_status`, what the handler shows of the two queues.
use directdnsonly.Base.{ℕ, Option, none, some}
use directdnsonly.Base.Exec.{Result, ok, raised}
use directdnsonly.Worker.State.{Item, Host, Manager}

-- What stands for the last item of a queue
pub data LastItem : Type 0 where
  last_item : Item → LastItem
  not_available : LastItem
  error_retrieving : LastItem

pub record QueueSizes : Type 0 where
  pub save_queue_size : ℕ
  pub delete_queue_size : ℕ
  pub last_save_item : LastItem
  pub last_delete_item : LastItem

-- `_get_last_item`, on the attribute of that name: `none` where the queue has none
unfoldable pub get_last_item : Option (Result Item) → LastItem
get_last_item none = not_available
get_last_item (some (ok item)) = last_item item
get_last_item (some (raised e)) = error_retrieving

module _ (H : Host) (last_item_of : H.queues.Queue → Option (Result Item)) where
  unfoldable pub queue_sizes : Manager H → QueueSizes
  unfolding get_last_item
  queue_sizes m = record {
    save_queue_size = H.queues.qsize m.save_queue;
    delete_queue_size = H.queues.qsize m.delete_queue;
    last_save_item = get_last_item (last_item_of m.save_queue);
    last_delete_item = get_last_item (last_item_of m.delete_queue);
  }
