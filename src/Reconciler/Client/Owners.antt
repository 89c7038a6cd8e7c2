-- ===== src/Reconciler/Client/Owners.antt =====
-- The hosts of the rows after a pass over DirectAdmin servers that answer page by page.
use mathlib.Core.Path.{ap₂}
use directdnsonly.Base.{
  ℕ, ◌+◌, ◌≤◌, String, ◌≡◌, refl, ap, ◌∙◌, Bool, Option, none, some, List, [], ◌∷◌, if◌then◌else◌,
  string_eq, truthy,
}
use directdnsonly.Base.Exec.{Result, ok}
use directdnsonly.Database.{Domain}
use directdnsonly.Da.Client.{Net, new_client}
use directdnsonly.Da.Domains.{Listing, list_domains}
use directdnsonly.Da.Domains.Complete.{IsPaged, stands_on, Lists, list_domains-Lists}
use directdnsonly.Worker.State.{Host, IsHost, Manager}
use directdnsonly.Reconciler.Poll.{Server}
use directdnsonly.Reconciler.Poll.Reporters.{lists, reporter, last_reporter, or_later}
use directdnsonly.Reconciler.Compare.Masters.{corrected}
use directdnsonly.Reconciler.Pass.{LastRun, reconcile_all}
use directdnsonly.Reconciler.Pass.Masters.{corrected_row, find-reconcile_all}
use directdnsonly.Reconciler.Client.{Account, listed, list_with_client}

lists-listed :
    (N : Net) (doc : ℕ → N.Json) (M : ℕ) (l : Listing N)
    → Lists N doc [] 1 M l
    → (d : String) → lists d (listed l) ≡ stands_on N doc d 1 M
lists-listed N doc M none h d = absurd h
lists-listed N doc M (some (none, c)) h d = absurd h
lists-listed N doc M (some (some found, c)) h d = h d

-- Servers by their host names: `pages h` is how many pages a server has, and `doc h` what stands on them.
module _ (net : String → Net) (account : String → Account) (ipp : ℕ) (pages : String → ℕ)
    (doc : (h : String) → ℕ → (net h).Json) where
  -- The host of the last server of a list that has the domain on one of its pages.
  abbrev pub holder : String → Option String → Option String
  holder d none = none
  holder d (some h) =
      if truthy h then (if stands_on (net h) (doc h) d 1 (pages h) then some h else none) else none

  abbrev pub last_holder : String → List Server → Option String
  last_holder d [] = none
  last_holder d (s ∷ servers) = or_later (last_holder d servers) (holder d s.hostname)

  abbrev pub held_row : List Server → Option Domain → Option Domain
  held_row servers none = none
  held_row servers (some r) = some (corrected (last_holder r.domain servers) r)

  abbrev pub poll : String → Result (Option (List String))
  poll = list_with_client net account (λ h. pages h + 2) ipp

  module _ (V : (h : String) → IsPaged (net h) ipp (pages h) (doc h))
      (positive : (h : String) → 1 ≤ pages h) where
    lists-poll : (d h : String) → lists d (poll h) ≡ stands_on (net h) (doc h) d 1 (pages h)
    unfolding list_with_client new_client
    lists-poll d h =
        let a = account h in
        let c = new_client h a.port a.username a.password a.ssl in
        lists-listed (net h) (doc h) (pages h) (list_domains (net h) (pages h + 2) ipp c)
          (list_domains-Lists (net h) (V h) (positive h) c refl) d

    reporter-holder : (d : String) (o : Option String) → reporter poll d o ≡ holder d o
    reporter-holder d none = refl
    reporter-holder d (some h) =
        ap (λ b. if truthy h then (if b then some h else none) else none) (lists-poll d h)

    last_reporter-holder :
        (d : String) (servers : List Server) → last_reporter poll d servers ≡ last_holder d servers
    last_reporter-holder d [] = refl
    last_reporter-holder d (s ∷ servers) =
        ap₂ or_later (last_reporter-holder d servers) (reporter-holder d s.hostname)

    corrected_row-held :
        (servers : List Server) (o : Option Domain)
        → corrected_row poll servers o ≡ held_row servers o
    corrected_row-held servers none = refl
    corrected_row-held servers (some r) =
        ap (λ a. some (corrected a r)) (last_reporter-holder r.domain servers)

    -- If the host keeps its assumptions and every server answers the pages of a listing, at least
    -- one, then after a pass that returns, with a client for each server on two turns more than
    -- its pages, every row has the host of the last server of the configuration that has its
    -- domain on one of its pages, or its old host if none does; nothing else of a row changes, and
    -- no row is added or removed.
    pub reconcile_with_client :
        (servers : List Server) (dry_run : Bool) (H : Host) (L : IsHost H) (m : Manager H)
        (run : LastRun)
        → (reconcile_all H poll servers dry_run m).0 ≡ ok run
        → (k : String)
        → H.database.find k (reconcile_all H poll servers dry_run m).1.table
          ≡ held_row servers (H.database.find k m.table)
    reconcile_with_client servers dry_run H L m run h k =
        find-reconcile_all poll servers dry_run H L m run h k
        ∙ corrected_row-held servers (H.database.find k m.table)
