-- ===== src/Reconciler/Poll.antt =====
-- directdnsonly/app/reconciler.py: the poll of the configured servers. What a client's
-- `list_domains` gives for a server is a parameter here.
pub mod Reporters
use directdnsonly.Base.{
  ℕ, ◌+◌, String, Bool, true, false, Option, none, some, List, [], ◌∷◌, if◌then◌else◌, ◌==◌,
  string_eq, truthy,
}
use directdnsonly.Base.Exec.{Result, ok, raised}

-- The entry of a server in the configuration: its host name, if it has one.
pub record Server : Type 0 where
  pub hostname : Option String

-- A dict from domains to host names.
abbrev pub DomainMap : Type 0
DomainMap = List (String × String)

abbrev pub master_of : String → DomainMap → Option String
master_of d [] = none
master_of d ((k, h) ∷ rest) = if d == k then some h else master_of d rest

-- `all_da_domains[d] = hostname`
unfoldable pub set_master : String → String → DomainMap → DomainMap
set_master d h [] = (d, h) ∷ []
set_master d h ((k, g) ∷ rest) = if d == k then (d, h) ∷ rest else (k, g) ∷ set_master d h rest

unfoldable pub set_masters : List String → String → DomainMap → DomainMap
set_masters [] h all = all
set_masters (d ∷ ds) h all = set_masters ds h (set_master d h all)

pub record Polled : Type 0 where
  pub all_da_domains : DomainMap
  pub da_servers_polled : ℕ
  pub da_servers_unreachable : ℕ

-- One server: `ok none` is a server that cannot be reached or answers with an error.
unfoldable pub poll_result : String → Result (Option (List String)) → Polled → Polled
unfolding set_masters set_master
poll_result hostname (ok (some ds)) p = record p {
  all_da_domains = set_masters ds hostname p.all_da_domains;
  da_servers_polled = p.da_servers_polled + 1;
}
poll_result hostname (ok none) p = record p {
  da_servers_polled = p.da_servers_polled + 1;
  da_servers_unreachable = p.da_servers_unreachable + 1;
}
poll_result hostname (raised e) p = record p {
  da_servers_polled = p.da_servers_polled + 1;
  da_servers_unreachable = p.da_servers_unreachable + 1;
}

module _ (list_domains : String → Result (Option (List String))) where
  -- A server with no host name is skipped.
  unfoldable pub poll_server : Option String → Polled → Polled
  poll_server none p = p
  poll_server (some hostname) p =
      if truthy hostname then poll_result hostname (list_domains hostname) p else p

  unfoldable pub poll_servers : List Server → Polled → Polled
  poll_servers [] p = p
  poll_servers (s ∷ servers) p = poll_servers servers (poll_server s.hostname p)

  unfoldable pub poll_all : List Server → Polled
  poll_all servers =
      poll_servers servers
        (record { all_da_domains = []; da_servers_polled = 0; da_servers_unreachable = 0 })
