-- ===== src/Tests/Publish.antt =====
-- The theorems on what is published, at the samples.
use directdnsonly.Base.{
  ℕ, String, ◌≡◌, refl, true, none, some, [], ◌∷◌, ◌++◌, string_eq, option_eq, nat_eq,
  if◌then◌else◌, ◌==◌, contains, false, inl, inr,
}
use directdnsonly.Base.Exec.{ok}
use directdnsonly.Database.Memory.{memory, memory-IsReliable}
use directdnsonly.Index.{register, check_zone_exists, put_zone_index}
use directdnsonly.Zone.{validate_and_normalize_zone, count_zone_records}
use directdnsonly.Admin.{Request, post, done, push_item, removal_item, answer_post}
use directdnsonly.Internal.{list_zones, served_zone}
use directdnsonly.Backend.Bind
use directdnsonly.Backend.Nsd
use directdnsonly.Backend.Dispatch.{bind, nsd}
use directdnsonly.Backend.Store.{files_of}
use directdnsonly.Worker.Backends.{
  targets, process_single_backend, delete_single_backend, on_each, failed_set,
}
use directdnsonly.Worker.Backends.Files.{any_backend-IsServer}
use directdnsonly.Worker.Save.{is_retry, index_zone, process_backends, conclude, process_item}
use directdnsonly.Worker.Save.Published.{Holds, process_item-Holds}
use directdnsonly.Worker.Delete.{deleted, delete_item, delete_from_backends}
use directdnsonly.Worker.Delete.Gone.{Lacks, delete_item-Lacks}
use directdnsonly.System.Publish.{IsPush, answer_post-Published}
use directdnsonly.System.Withdraw.{IsDelete, answer_post-Withdrawn}
use directdnsonly.Internal.Served.{names}
use directdnsonly.Tests.Samples.{
  known, healthy, host_on, host_on-IsHost, bind_files, nsd_files, push, delete_known, start,
}

process_item-Holds_example :
    Holds
      (host_on healthy)
      (host_on-IsHost healthy)
      files_of
      (any_backend-IsServer healthy)
      "nsd"
      "a.org"
      "zone"
      (nsd nsd_files)
      (process_item (host_on healthy) push (start healthy)).1.backends
unfolding process_item index_zone register check_zone_exists put_zone_index memory string_eq
    process_single_backend Bind.write_zone Bind.update_named_conf Bind.reload_zone Nsd.write_zone
    Nsd.reload_zone process_backends on_each failed_set conclude count_zone_records targets is_retry
    option_eq nat_eq
process_item-Holds_example =
    process_item-Holds (host_on healthy) (host_on-IsHost healthy) files_of
      (any_backend-IsServer healthy) push "a.org" "zone" "nsd" (start healthy) (nsd nsd_files) refl
      refl refl refl

delete_item-Lacks_example :
    (memory.find "b.org" (delete_item (host_on healthy) delete_known (start healthy)).1.table
      ≡ none)
    × Lacks
        (host_on healthy)
        (host_on-IsHost healthy)
        files_of
        (any_backend-IsServer healthy)
        "bind"
        "b.org"
        (bind bind_files)
        (delete_item (host_on healthy) delete_known (start healthy)).1.backends
unfolding memory delete_item string_eq nat_eq option_eq delete_from_backends on_each
    delete_single_backend Nsd.delete_zone Nsd.reload_zone Bind.delete_zone Bind.update_named_conf
    Bind.reload_zone
delete_item-Lacks_example =
    delete_item-Lacks (host_on healthy) (host_on-IsHost healthy) files_of
      (any_backend-IsServer healthy) delete_known "b.org" "bind" (start healthy) (bind bind_files)
      refl refl refl

abbrev request : Request
request = record {
  method = post;
  params = record {
    action = some "rawsave";
    domain = some "a.org";
    zone_file = some "@ IN A 192.0.2.1";
    hostname = some "da2";
    username = none;
    check_for_parent_domain = none;
  };
  body = ok "";
}

abbrev zone : String
zone = "$TTL 300\n$ORIGIN a.org.\n@ IN A 192.0.2.1"

request-IsPush : IsPush (host_on healthy) request "a.org" "@ IN A 192.0.2.1" zone
unfolding string_eq nat_eq validate_and_normalize_zone
request-IsPush = record {
  action = refl;
  domain = refl;
  named = refl;
  zone_file = inl refl;
  filed = refl;
  accepted = refl;
}

abbrev nine : ℕ → String
nine n = "9"

answer_post-Published_example :
    let item = push_item "a.org" zone request.params in
    ((answer_post (host_on healthy) request (start healthy)).0 ≡ done)
    × ((host_on healthy).queues.items
          (answer_post (host_on healthy) request (start healthy)).1.save_queue
        ≡ (host_on healthy).queues.items (start healthy).save_queue ++ (item ∷ []))
    × ((process_item (host_on healthy) item (start healthy)).0 ≡ ok true)
    × (served_zone memory nine "a.org" (process_item (host_on healthy) item (start healthy)).1.table
        ≡ record { status_code = 200; json = ok (some zone) })
    × Holds
        (host_on healthy)
        (host_on-IsHost healthy)
        files_of
        (any_backend-IsServer healthy)
        "nsd"
        "a.org"
        zone
        (nsd nsd_files)
        (process_item (host_on healthy) item (start healthy)).1.backends
unfolding push_item register check_zone_exists put_zone_index memory string_eq
    process_single_backend Bind.write_zone Bind.update_named_conf Bind.reload_zone Nsd.write_zone
    Nsd.reload_zone count_zone_records targets is_retry option_eq nat_eq
answer_post-Published_example =
    answer_post-Published (host_on healthy) (host_on-IsHost healthy) files_of
      (any_backend-IsServer healthy) nine request "a.org" "@ IN A 192.0.2.1" zone "nsd"
      (start healthy) (start healthy) (nsd nsd_files) request-IsPush memory-IsReliable refl
      (refl, (refl, tt))

abbrev withdrawal : Request
withdrawal = record {
  method = post;
  params = record {
    action = some "delete";
    domain = some "b.org";
    zone_file = none;
    hostname = some "da1";
    username = none;
    check_for_parent_domain = none;
  };
  body = ok "";
}

withdrawal-IsDelete : IsDelete withdrawal "b.org" ""
unfolding string_eq
withdrawal-IsDelete = record { action = refl; domain = refl; named = refl; decoded = refl }

answer_post-Withdrawn_example :
    let item = removal_item "b.org" withdrawal.params in
    let after = (delete_item (host_on healthy) item (start healthy)).1 in
    ((answer_post (host_on healthy) withdrawal (start healthy)).0 ≡ done)
    × ((host_on healthy).queues.items
          (answer_post (host_on healthy) withdrawal (start healthy)).1.delete_queue
        ≡ (host_on healthy).queues.items (start healthy).delete_queue ++ (item ∷ []))
    × ((delete_item (host_on healthy) item (start healthy)).0 ≡ ok deleted)
    × (served_zone memory nine "b.org" after.table ≡ record { status_code = 404; json = ok none })
    × (contains (names (list_zones nine (memory.all after.table))) (some "b.org") ≡ false)
    × ((k : String)
        → memory.find k after.table
          ≡ (if k == "b.org" then none else memory.find k (start healthy).table))
    × Lacks
        (host_on healthy)
        (host_on-IsHost healthy)
        files_of
        (any_backend-IsServer healthy)
        "bind"
        "b.org"
        (bind bind_files)
        after.backends
unfolding removal_item memory string_eq nat_eq option_eq delete_single_backend Nsd.delete_zone
    Nsd.reload_zone Bind.delete_zone Bind.update_named_conf Bind.reload_zone
answer_post-Withdrawn_example =
    answer_post-Withdrawn (host_on healthy) (host_on-IsHost healthy) files_of
      (any_backend-IsServer healthy) nine withdrawal "b.org" "" "bind" (start healthy)
      (start healthy) known (bind bind_files) withdrawal-IsDelete memory-IsReliable refl (inr refl)
      (refl, (refl, tt)) refl
