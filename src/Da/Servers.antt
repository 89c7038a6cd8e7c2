-- ===== src/Da/Servers.antt =====
-- directdnsonly/app/da/client.py: the Extra DNS servers.
pub mod Ensured
use directdnsonly.Base.{
  ℕ, String, ◌<>◌, Bool, true, false, ◌||◌, not, Option, none, some, List, [], ◌∷◌, if◌then◌else◌,
  ◌==◌, string_eq, nat_eq, contains,
}
use directdnsonly.Base.Exec.{Result, ok, raised}
use directdnsonly.Da.Client.{Response, Net, DirectAdminClient, client_get, client_post}

abbrev pub yes_no : Bool → String
yes_no true = "yes"
yes_no false = "no"

module _ (N : Net) where
  abbrev pub or_empty_list : Result (List String) → List String
  or_empty_list (ok names) = names
  or_empty_list (raised e) = []

  -- The names of the servers in an answer, none on any error
  abbrev pub servers_in : Option (Response N.Json) → List String
  servers_in none = []
  servers_in (some r) =
      if r.status_code == 200
      then (elim r.json [ raised e ↦ [] | ok data_ ↦ or_empty_list (N.servers data_) ])
      else []

  abbrev pub is_true : Result Bool → Bool
  is_true (ok b) = b
  is_true (raised e) = false

  -- The answer reports success.
  abbrev pub succeeded : Option (Response N.Json) → Bool
  succeeded none = false
  succeeded (some r) =
      if r.status_code == 200
      then (elim r.json [ raised e ↦ false | ok data_ ↦ is_true (N.success data_) ])
      else false

  unfoldable pub get_extra_dns_servers : DirectAdminClient → List String × DirectAdminClient
  get_extra_dns_servers c =
      let (r, c') = client_get N "CMD_MULTI_SERVER" (("json", "yes") ∷ []) c in (servers_in r, c')

  module _ (ip : String) (port : ℕ) (user passwd : String) (ssl : Bool) where
    abbrev pub add_fields : List (String × String)
    add_fields =
        ("action", "add")
        ∷ ("json", "yes")
        ∷ ("ip", ip)
        ∷ ("port", N.str port)
        ∷ ("user", user)
        ∷ ("passwd", passwd)
        ∷ ("ssl", yes_no ssl)
        ∷ []

    abbrev pub save_fields : List (String × String)
    save_fields =
        ("action", "multiple")
        ∷ ("save", "yes")
        ∷ ("json", "yes")
        ∷ ("passwd", "")
        ∷ ("select0", ip)
        ∷ ("port-" <> ip, N.str port)
        ∷ ("user-" <> ip, user)
        ∷ ("ssl-" <> ip, yes_no ssl)
        ∷ ("dns-" <> ip, "yes")
        ∷ ("domain_check-" <> ip, "yes")
        ∷ ("user_check-" <> ip, "no")
        ∷ ("email-" <> ip, "no")
        ∷ ("show_all_users-" <> ip, "no")
        ∷ []

    unfoldable pub add_extra_dns_server : DirectAdminClient → Bool × DirectAdminClient
    add_extra_dns_server c =
        let (r, c') = client_post N "CMD_MULTI_SERVER" add_fields c in (succeeded r, c')

    abbrev pub save_extra_dns_server : DirectAdminClient → Bool × DirectAdminClient
    save_extra_dns_server c =
        let (r, c') = client_post N "CMD_MULTI_SERVER" save_fields c in (succeeded r, c')

    unfoldable pub ensure_extra_dns_server : DirectAdminClient → Bool × DirectAdminClient
    unfolding get_extra_dns_servers add_extra_dns_server
    ensure_extra_dns_server c =
        let (servers, c1) = get_extra_dns_servers c in
        let (added, c2) = add_extra_dns_server c1 in
        if contains servers ip
        then save_extra_dns_server c1
        else if added
        then save_extra_dns_server c2
        else (false, c2)
