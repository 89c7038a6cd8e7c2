-- ===== src/Tests/Admin.antt =====
-- The theorems on the admin API, at the samples.
use directdnsonly.Base.{◌≡◌, refl, some, none, string_eq, option_eq, truthy?, if◌then◌else◌}
use directdnsonly.Base.Exec.{ok}
use directdnsonly.Admin.{Params, Request, post, answer_post, handle_exists}
use directdnsonly.Admin.Queued.{Accounted, answer_post-Accounted}
use directdnsonly.Admin.Exists.{parent_row, answer_by, handle_exists_lem}
use directdnsonly.Tests.Samples.{healthy, host_on, host_on-IsHost, start}

abbrev rawsave : Request
rawsave = record {
  method = post;
  params = record {
    action = some "rawsave";
    domain = some "c.org";
    zone_file = none;
    hostname = some "da1";
    username = none;
    check_for_parent_domain = none;
  };
  body = ok "c.org. 300 IN A 192.0.2.1";
}

answer_post-Accounted_example :
    Accounted
      (host_on healthy)
      (host_on-IsHost healthy)
      (start healthy)
      (answer_post (host_on healthy) rawsave (start healthy))
unfolding string_eq
answer_post-Accounted_example =
    answer_post-Accounted (host_on healthy) (host_on-IsHost healthy) rawsave (start healthy) refl

abbrev check : Params
check = record {
  action = some "exists";
  domain = some "www.b.org";
  zone_file = none;
  hostname = none;
  username = none;
  check_for_parent_domain = some "1";
}

handle_exists_lem_example :
    handle_exists (host_on healthy) 1 check (start healthy).table
    ≡ answer_by 1 ((host_on healthy).database.find "www.b.org" (start healthy).table) (
        if truthy? check.check_for_parent_domain
        then parent_row (host_on healthy) "www.b.org" (start healthy).table
        else none)
unfolding string_eq
handle_exists_lem_example =
    handle_exists_lem (host_on healthy) 1 check "www.b.org" (start healthy).table refl refl refl
