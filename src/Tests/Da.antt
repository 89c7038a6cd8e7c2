-- ===== src/Tests/Da.antt =====
-- The theorems on the DirectAdmin client, at a server with two pages that redirects to a login.
use directdnsonly.Base.{
  ℕ, ◌+◌, ◌≤◌, String, ◌≡◌, refl, Bool, true, false, ◌&&◌, ◌||◌, Option, none, some, List, [], ◌∷◌,
  if◌then◌else◌, arith, inr, string_eq, nat_eq, option_eq,
}
use directdnsonly.Base.Exec.{Result, ok}
use directdnsonly.Da.Client.{
  Method, get, post, Response, Net, DirectAdminClient, new_client, client_get, login, url_for,
}
use directdnsonly.Da.Domains.{list_domains, list_pages, turn, page_domains, add_domain, add_domains}
use directdnsonly.Da.Domains.Settles.{posts, slack, Settled, list_domains-Settled}
use directdnsonly.Da.Domains.Complete.{IsPaged, Lists, list_domains-Lists}
use directdnsonly.Base.Text.{is_digit, lower, strip}
use directdnsonly.Reconciler.Compare.{compare_rows, act, verdict, orphan_item}
use directdnsonly.Reconciler.Poll.{
  Server, poll_all, poll_servers, poll_server, poll_result, set_master, set_masters,
}
use directdnsonly.Reconciler.Pass.{reconcile_all, commit_rows, progress}
use directdnsonly.Reconciler.Client.{Account, list_with_client}
use directdnsonly.Reconciler.Client.Owners.{poll, held_row, reconcile_with_client}
use directdnsonly.Database.Memory.{memory, put_row, put_rows}
use directdnsonly.Da.Servers.{ensure_extra_dns_server}
use directdnsonly.Tests.Samples.{healthy, host_on, host_on-IsHost, start}
use directdnsonly.Da.Servers.Ensured.{
  is_registered, is_added, prepared, save_request, reports_success, ensure_extra_dns_server_lem,
}

abbrev doc : ℕ → Bool
doc p = false

abbrev with_cookies : Option String → Response Bool
with_cookies cookies = record {
  status_code = 302;
  is_redirect = true;
  content_type = "";
  cookies = cookies;
  text = "";
  json = ok false;
}

abbrev page : Response Bool
page = record {
  status_code = 200;
  is_redirect = false;
  content_type = "application/json";
  cookies = none;
  text = "";
  json = ok false;
}

abbrev reply : Method → Option String → Result (Response Bool)
reply get none = ok (with_cookies none)
reply get (some s) = ok page
reply post session = ok (with_cookies (some "session"))

-- Each page lists one domain; the document is a mere flag.
abbrev net : Net
net = record {
  Json = Bool;
  answer = λ sent r. reply r.method r.session;
  items = λ d. ("1", some " B.org ") ∷ ("info", none) ∷ [];
  total_pages = λ d. ok 2;
  servers = λ d. ok ("192.0.2.1" ∷ []);
  success = λ d. ok true;
  parse_qs = λ s. [];
  str = λ n. "n";
}

abbrev client : DirectAdminClient
unfolding new_client
client = new_client "da1" 2222 "admin" "secret" true

total_pages_bounded : (data_ : Bool) (n : ℕ) → net.total_pages data_ ≡ ok n → n ≤ 2
total_pages_bounded data_ n h = ground (arith, h)

list_domains-Settled_example :
    Settled net (posts client.sent + slack client.cookies) (list_domains net 4 1000 client)
list_domains-Settled_example =
    list_domains-Settled net 2 total_pages_bounded (omega arith) 1000 client

two_pages : IsPaged net 1000 2 doc
two_pages = record {
  pages = λ p. refl;
  with_session = λ c s p h. ground (arith, h);
  without_session = λ c p h. inr (with_cookies none, ground (arith, h), refl);
  logs_in = λ c. (with_cookies (some "session"), "session", refl, refl);
}

list_domains-Lists_example : Lists net doc [] 1 2 (list_domains net 4 1000 client)
unfolding client
list_domains-Lists_example = list_domains-Lists net two_pages (omega arith) client refl

ensure_extra_dns_server_lem_example :
    let result = ensure_extra_dns_server net "192.0.2.7" 2222 "u" "p" false client in
    (result.1.sent ≡ (
      if is_registered net "192.0.2.7" 2222 "u" "p" false client
        || is_added net "192.0.2.7" 2222 "u" "p" false client
      then save_request net "192.0.2.7" 2222 "u" "p" false client
        ∷ prepared net "192.0.2.7" 2222 "u" "p" false client
      else prepared net "192.0.2.7" 2222 "u" "p" false client))
    × (result.0 ≡ (
        (is_registered net "192.0.2.7" 2222 "u" "p" false client
          || is_added net "192.0.2.7" 2222 "u" "p" false client)
        && reports_success net "192.0.2.7" 2222 "u" "p" false client
            (prepared net "192.0.2.7" 2222 "u" "p" false client)
            (save_request net "192.0.2.7" 2222 "u" "p" false client)))
ensure_extra_dns_server_lem_example =
    ensure_extra_dns_server_lem net "192.0.2.7" 2222 "u" "p" false client

abbrev account : String → Account
account h = record { port = 2222; username = "admin"; password = "secret"; ssl = true }

abbrev da2 : List Server
da2 = record { hostname = some "da2" } ∷ []

-- The answers of the servers, two pages each
abbrev answers : String → Result (Option (List String))
answers = poll (λ h. net) account 1000 (λ h. 2) (λ h. doc)

reconcile_with_client_example :
    (host_on healthy).database.find "b.org"
      (reconcile_all (host_on healthy) answers da2 true (start healthy)).1.table
    ≡ held_row
        (λ h. net)
        account
        1000
        (λ h. 2)
        (λ h. doc)
        da2
        ((host_on healthy).database.find "b.org" (start healthy).table)
unfolding reconcile_all commit_rows progress compare_rows memory act verdict poll_all poll_servers
    poll_server string_eq poll_result list_with_client list_domains list_pages client_get login
    nat_eq option_eq is_digit lower strip new_client url_for add_domain add_domains page_domains
    turn put_row put_rows orphan_item set_master set_masters
reconcile_with_client_example =
    reconcile_with_client (λ h. net) account 1000 (λ h. 2) (λ h. doc) (λ h. two_pages)
      (λ h. omega arith) da2 true (host_on healthy) (host_on-IsHost healthy) (start healthy) _ refl
      "b.org"
