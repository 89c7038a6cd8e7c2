-- ===== src/Reconciler/Poll/Reporters.antt =====
-- The map of a poll names, for each domain, the last server that lists it.
use directdnsonly.Base.{
  String, ◌≡◌, refl, ◌∙◌, Bool, false, Option, none, some, List, [], ◌∷◌, if◌then◌else◌, ◌==◌,
  string_eq, truthy, contains, arith,
}
use directdnsonly.Base.Exec.{Result, ok, raised}
use directdnsonly.Reconciler.Poll.{
  Server, DomainMap, master_of, set_master, set_masters, Polled, poll_result, poll_server,
  poll_servers, poll_all,
}

master_of-set_master :
    (d k h : String) (all : DomainMap)
    → master_of d (set_master k h all) ≡ (if d == k then some h else master_of d all)
unfolding set_master
master_of-set_master d k h [] = refl
master_of-set_master d k h ((j, g) ∷ rest) = ground (arith, master_of-set_master d k h rest)

master_of-set_masters :
    (d h : String) (ds : List String) (all : DomainMap)
    → master_of d (set_masters ds h all) ≡ (if contains ds d then some h else master_of d all)
unfolding set_masters
master_of-set_masters d h [] all = refl
master_of-set_masters d h (k ∷ ds) all =
    ground
      (arith, master_of-set_masters d h ds (set_master k h all), master_of-set_master d k h all)

-- The answer of a server lists the domain.
abbrev pub lists : String → Result (Option (List String)) → Bool
lists d (ok (some ds)) = contains ds d
lists d (ok none) = false
lists d (raised e) = false

abbrev pub or_later : Option String → Option String → Option String
or_later none old = old
or_later (some h) old = some h

module _ (list_domains : String → Result (Option (List String))) where
  -- The host name of a server that has one and lists the domain.
  abbrev pub reporter : String → Option String → Option String
  reporter d none = none
  reporter d (some h) =
      if truthy h then (if lists d (list_domains h) then some h else none) else none

  -- The last server of a list that lists the domain.
  abbrev pub last_reporter : String → List Server → Option String
  last_reporter d [] = none
  last_reporter d (s ∷ servers) = or_later (last_reporter d servers) (reporter d s.hostname)

  master_of-poll_server :
      (d : String) (hostname : Option String) (p : Polled)
      → master_of d (poll_server list_domains hostname p).all_da_domains
        ≡ or_later (reporter d hostname) (master_of d p.all_da_domains)
  unfolding poll_server poll_result
  master_of-poll_server d none p = refl
  master_of-poll_server d (some h) p = polled_answer (list_domains h)
    where
      polled_answer :
          (r : Result (Option (List String)))
          → master_of d (if truthy h then poll_result h r p else p).all_da_domains
            ≡ or_later
                (if truthy h then (if lists d r then some h else none) else none)
                (master_of d p.all_da_domains)
      polled_answer (ok (some ds)) = ground (arith, master_of-set_masters d h ds p.all_da_domains)
      polled_answer (ok none) = ground arith
      polled_answer (raised e) = ground arith

  master_of-poll_servers :
      (d : String) (servers : List Server) (p : Polled)
      → master_of d (poll_servers list_domains servers p).all_da_domains
        ≡ or_later (last_reporter d servers) (master_of d p.all_da_domains)
  unfolding poll_servers
  master_of-poll_servers d [] p = refl
  master_of-poll_servers d (s ∷ servers) p = ground (
    arith,
    master_of-poll_servers d servers (poll_server list_domains s.hostname p),
    master_of-poll_server d s.hostname p,
  )

  -- After a poll a domain maps to the last server of the configuration that lists it, and to none
  -- if no server does. A server that cannot be reached lists nothing.
  pub master_of-poll_all :
      (d : String) (servers : List Server)
      → master_of d (poll_all list_domains servers).all_da_domains ≡ last_reporter d servers
  unfolding poll_all
  master_of-poll_all d servers = master_of-poll_servers d servers _ ∙ ground arith
