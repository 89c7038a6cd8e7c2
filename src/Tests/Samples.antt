-- ===== src/Tests/Samples.antt =====
-- A host in memory: a table, list queues, and backends whose system calls follow a schedule. Threads
-- end in the reverse order.
use mathlib.Core.List.{reverse, reverse_perm}
use directdnsonly.Base.{◌+◌, String, true, none, some, List, [], ◌∷◌, refl, nat_eq}
use directdnsonly.Database.{Domain}
use directdnsonly.Database.Memory.{Rows, memory, memory-IsDatabase}
use directdnsonly.Queue.Memory.{list_queues, list_queues-IsFifo}
use directdnsonly.Backend.Files.{System, written, refused}
use directdnsonly.Backend.Bind.{BindBackend}
use directdnsonly.Backend.Nsd.{NsdBackend}
use directdnsonly.Backend.Dispatch.{BackendInstance, bind, nsd, any_backend}
use directdnsonly.Worker.State.{Item, Host, IsHost, Manager}

abbrev pub healthy : System
healthy = record {
  reachable = λ z. true;
  write = λ n. written;
  read = λ n. true;
  control = λ n. true;
}

-- The first write of each instance is refused.
abbrev pub full_disk : System
full_disk = record healthy { write = λ n. refused }

abbrev pub host_on : System → Host
host_on os = record {
  database = memory;
  queues = list_queues Item;
  Instance = BackendInstance;
  backend = any_backend os;
  from_text = λ z o. some (1 ∷ 1 ∷ []);
  time = λ n. 1000 + n;
  utcnow = λ n. n;
  as_completed = λ rs. reverse rs;
}

pub host_on-IsHost : (os : System) → IsHost (host_on os)
host_on-IsHost os = record {
  database = memory-IsDatabase;
  queues = list_queues-IsFifo Item;
  as_completed = λ rs. reverse_perm rs;
}

abbrev pub bind_files : BindBackend
bind_files = record {
  zones_dir = "/etc/named/zones";
  zones = ("b.org", "old") ∷ [];
  named_conf = "";
  reloads = [];
  calls = 0;
}

abbrev pub nsd_files : NsdBackend
nsd_files = record {
  zones_dir = "/etc/nsd/zones";
  zones = ("b.org", "old") ∷ [];
  nsd_conf = none;
  reloads = [];
  calls = 0;
}

abbrev pub both : List (String × BackendInstance)
both = ("bind", bind bind_files) ∷ ("nsd", nsd nsd_files) ∷ []

abbrev pub known : Domain
known = record {
  domain = "b.org";
  hostname = some "da1";
  username = some "ann";
  zone_data = some "old";
  zone_updated_at = some 3;
}

abbrev pub one_row : Rows
one_row = (known ∷ [], (refl, tt))

abbrev pub one_table : memory.Table
unfolding memory
one_table = one_row

abbrev pub push : Item
push = record {
  domain = some "a.org";
  zone_file = some "zone";
  hostname = some "da2";
  username = some "bob";
  source = none;
  failed_backends = none;
  retry_count = none;
  retry_after = none;
}

abbrev pub early : Item
early = record push { source = some "retry"; retry_count = some 1; retry_after = some 900 }

abbrev pub late : Item
late = record push { source = some "retry"; retry_count = some 2; retry_after = some 2000 }

abbrev pub delete_known : Item
delete_known = record push { domain = some "b.org"; zone_file = none; hostname = some "da1" }

abbrev pub start : (os : System) → Manager (host_on os)
start os = record {
  table = one_table;
  save_queue = push ∷ early ∷ [];
  delete_queue = delete_known ∷ [];
  retry_queue = early ∷ late ∷ [];
  dead_letter_count = 0;
  backends = both;
  reads = 0;
  session_record = none;
}
