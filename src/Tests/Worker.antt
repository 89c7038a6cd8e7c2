-- ===== src/Tests/Worker.antt =====
-- The theorems on the queue workers, at the samples.
use directdnsonly.Base.{
  ℕ, String, ◌<>◌, Bool, Option, List, ◌≡◌, refl, true, none, some, [], ◌∷◌, arith, string_eq,
  option_eq, nat_eq,
}
use directdnsonly.Base.Exec.{ok}
use directdnsonly.Database.Memory.{memory, memory-IsDatabase, memory-IsReliable}
use directdnsonly.Index.{register, check_zone_exists, put_zone_index}
use directdnsonly.Backend.Files.{zone_file}
use directdnsonly.Backend.Bind
use directdnsonly.Backend.Bind.{bind_backend}
use directdnsonly.Backend.Bind.Stale.{delete_leaves_stanza}
use directdnsonly.Backend.Nsd
use directdnsonly.Zone.{occurs, count_zone_records}
use directdnsonly.Queue.Memory.{list_queues-IsFifo}
use directdnsonly.Worker.State.{Item, Manager}
use directdnsonly.Worker.Backends.{process_single_backend, delete_single_backend, on_each, targets}
use directdnsonly.Worker.Retry.{retry_round}
use directdnsonly.Worker.Retry.Drain.{Drained, retry_round_lem}
use directdnsonly.Worker.Save.{is_retry, index_zone, process_item, save_round}
use mathlib.Core.List.{Perm}
use mathlib.Core.List.Perm
use directdnsonly.Zone.{validate_and_normalize_zone}
use directdnsonly.Zone.Normal.{validate_and_normalize_zone_idem}
use directdnsonly.Worker.Save.Order.{other, moved}
use directdnsonly.Worker.Save.Order.Rounds.{Agree, save_round-Agree}
use directdnsonly.Worker.Save.Outcome.{Stored, process_item-Stored}
use directdnsonly.Worker.Save.Failure.{Retried, Dropped, process_item-Retried, process_item-Dropped}
use directdnsonly.Worker.Save.Batch.{Emptied, save_round-total}
use directdnsonly.Worker.Delete.{rejected, delete_item, delete_from_backends}
use directdnsonly.Worker.Delete.Stale.{delete_item-rejected_again}
use directdnsonly.Worker.Delete.Ownership.{Allowed, delete_item-deleted}
use directdnsonly.Tests.Samples.{
  healthy, full_disk, host_on, host_on-IsHost, bind_files, both, known, one_table, push, early,
  late, delete_known, start,
}

process_item-Stored_example :
    Stored
      (host_on healthy)
      push
      "a.org"
      "zone"
      (start healthy)
      (process_item (host_on healthy) push (start healthy))
unfolding register check_zone_exists put_zone_index memory string_eq process_single_backend
    Bind.write_zone Bind.update_named_conf Bind.reload_zone Nsd.write_zone Nsd.reload_zone
    count_zone_records targets is_retry option_eq nat_eq
process_item-Stored_example =
    process_item-Stored (host_on healthy) (host_on-IsHost healthy) push (start healthy) "a.org"
      "zone" memory-IsReliable refl refl refl refl refl (refl, (refl, tt))

-- The state behind the index step, on a disk that refuses every write.
abbrev indexed : Item → Manager (host_on full_disk)
indexed item = (index_zone (host_on full_disk) item (start full_disk)).1

process_item-Retried_example :
    Retried
      (host_on full_disk)
      push
      "a.org"
      "zone"
      (indexed push)
      both
      (process_item (host_on full_disk) push (start full_disk))
unfolding index_zone register check_zone_exists put_zone_index memory string_eq
    process_single_backend Bind.write_zone Bind.update_named_conf Bind.reload_zone Nsd.write_zone
    Nsd.reload_zone count_zone_records targets is_retry option_eq nat_eq
process_item-Retried_example =
    process_item-Retried (host_on full_disk) (host_on-IsHost full_disk) push (start full_disk)
      (indexed push) "a.org" "zone" "nsd" refl refl refl refl refl (omega arith)

abbrev spent : Item
spent = record early { retry_count = some 5 }

process_item-Dropped_example :
    Dropped
      (host_on full_disk)
      (indexed spent)
      (process_item (host_on full_disk) spent (start full_disk))
unfolding index_zone register check_zone_exists put_zone_index memory string_eq
    process_single_backend Bind.write_zone Bind.update_named_conf Bind.reload_zone Nsd.write_zone
    Nsd.reload_zone count_zone_records targets is_retry option_eq nat_eq
process_item-Dropped_example =
    process_item-Dropped (host_on full_disk) (host_on-IsHost full_disk) spent (start full_disk)
      (indexed spent) "a.org" "zone" "bind" refl refl refl refl refl (omega arith)

save_round-total_example :
    Emptied (host_on full_disk) (save_round (host_on full_disk) (start full_disk)) 2
unfolding memory
save_round-total_example =
    save_round-total (host_on full_disk) (host_on-IsHost full_disk) (start full_disk)

retry_round_lem_example :
    Drained (host_on healthy) (start healthy) (retry_round (host_on healthy) (start healthy))
unfolding memory
retry_round_lem_example =
    retry_round_lem (host_on healthy) (list_queues-IsFifo Item) (start healthy)

delete_item-deleted_example :
    Allowed
      (host_on healthy)
      delete_known
      "b.org"
      (start healthy)
      (delete_item (host_on healthy) delete_known (start healthy)).1.table
unfolding delete_item delete_from_backends on_each delete_single_backend register check_zone_exists
    put_zone_index memory string_eq process_single_backend Bind.write_zone Bind.update_named_conf
    Bind.reload_zone Nsd.write_zone Nsd.reload_zone count_zone_records targets is_retry option_eq
    nat_eq Bind.delete_zone Nsd.delete_zone
delete_item-deleted_example =
    delete_item-deleted (host_on healthy) (host_on-IsHost healthy) delete_known (start healthy)
      "b.org" refl refl

abbrev intruder : Item
intruder = record delete_known { hostname = some "da9" }

-- The table after the zone has been moved to the host that the delete came from
abbrev moved_table : memory.Table
unfolding memory
moved_table = (record known { hostname = some "da9" } ∷ [], (refl, tt))

abbrev after_move : Manager (host_on healthy)
after_move = record (delete_item (host_on healthy) intruder (start healthy)).1 {
  table = moved_table;
}

delete_item-rejected_again_example :
    ((delete_item (host_on healthy) intruder (start healthy)).0 ≡ ok rejected)
    × ((delete_item (host_on healthy) intruder after_move).0 ≡ ok rejected)
    × ((delete_item (host_on healthy) intruder after_move).1.backends ≡ after_move.backends)
    × ((delete_item (host_on healthy) intruder after_move).1.table ≡ after_move.table)
unfolding memory string_eq
delete_item-rejected_again_example =
    delete_item-rejected_again (host_on healthy) (host_on-IsHost healthy) intruder intruder "b.org"
      "da1" "da9" (start healthy) after_move known (record known { hostname = some "da9" }) refl
      refl refl refl refl refl refl refl refl refl refl refl

delete_leaves_stanza_example :
    let (success, b) =
      delete_single_backend (bind_backend healthy) "b.org" ("b.org" ∷ []) bind_files in
    (success ≡ true)
    × (zone_file "b.org" b.zones ≡ none)
    × (occurs (Bind.stanza "/etc/named/zones" "b.org") b.named_conf ≡ true)
unfolding memory string_eq
delete_leaves_stanza_example =
    delete_leaves_stanza healthy memory memory-IsDatabase "b.org" one_table known bind_files refl
      refl refl refl refl

-- The order in which the threads were started
abbrev in_order : List (String × Bool) → List (String × Bool)
in_order rs = rs

in_order-Perm : (rs : List (String × Bool)) → Perm (in_order rs) rs
in_order-Perm rs = Perm.refl rs

save_round-Agree_example :
    Agree
      (host_on full_disk)
      (host_on-IsHost full_disk)
      in_order
      in_order-Perm
      (save_round (host_on full_disk) (start full_disk))
      (save_round
        (other (host_on full_disk) in_order)
        (moved (host_on full_disk) in_order (early ∷ late ∷ []) (start full_disk)))
save_round-Agree_example =
    save_round-Agree (host_on full_disk) (host_on-IsHost full_disk) in_order in_order-Perm
      (start full_disk) (early ∷ late ∷ []) refl

-- A zone of one record
abbrev accepted : String → String → Option (List ℕ)
accepted z o = some (1 ∷ [])

abbrev normal : String
normal = "$TTL 300\n$ORIGIN a.org.\n@ IN A 192.0.2.1"

validate_and_normalize_zone_idem_example :
    (occurs "$ORIGIN" normal ≡ true)
    × (occurs "$TTL" normal ≡ true)
    × ((a : String) × (normal ≡ a <> "@ IN A 192.0.2.1"))
    × (validate_and_normalize_zone accepted normal "a.org" ≡ ok normal)
unfolding validate_and_normalize_zone nat_eq
validate_and_normalize_zone_idem_example =
    validate_and_normalize_zone_idem accepted "@ IN A 192.0.2.1" "a.org" normal refl
