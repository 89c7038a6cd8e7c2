-- ===== src/Da/Domains.antt =====
-- directdnsonly/app/da/client.py: `list_domains` and the legacy list.
pub mod Complete
pub mod Settles
use directdnsonly.Base.{
  ℕ, zero, suc, ◌+◌, String, Bool, true, false, ◌&&◌, ◌||◌, Option, none, some, List, [], ◌∷◌, ◌++◌,
  map, keep, if◌then◌else◌, ◌==◌, string_eq, nat_eq, leb, contains, truthy,
}
use directdnsonly.Base.Exec.{Result, ok, raised}
use directdnsonly.Base.Text.{strip, strip_ampersands, lower, is_digit, join_lines}
use directdnsonly.Zone.{occurs}
use directdnsonly.Da.Client.{Response, Net, DirectAdminClient, client_get, login}

-- A set of domains as a list without repetition
unfoldable pub add_domain : String → List String → List String
add_domain d all = if contains all d then all else d ∷ all

unfoldable pub add_domains : List String → List String → List String
unfolding add_domain
add_domains [] all = all
add_domains (d ∷ ds) all = add_domains ds (add_domain d all)

abbrev pub values_of : String → List (String × List String) → List String
values_of k [] = []
values_of k ((j, vs) ∷ rest) = if k == j then vs else values_of k rest

-- The domains of a page: those of the items whose key is a number.
unfoldable pub page_domains : List (String × Option String) → List String
unfolding strip lower is_digit
page_domains [] = []
page_domains ((k, none) ∷ rest) = page_domains rest
page_domains ((k, some d) ∷ rest) =
    let ds = page_domains rest in if is_digit k then lower (strip d) ∷ ds else ds

abbrev pub redirects : ℕ → Bool
redirects n = n == 301 || n == 302 || n == 303 || n == 307 || n == 308

-- `raise_for_status` raises.
abbrev pub is_http_error : ℕ → Bool
is_http_error n = leb 400 n && leb n 599

module _ (N : Net) where
  unfoldable pub parse_legacy_domain_list : String → List String
  unfolding strip strip_ampersands lower join_lines
  parse_legacy_domain_list body =
      map (λ d. lower (strip d))
        (keep (λ d. truthy (strip d))
          (values_of "list[]" (N.parse_qs (strip_ampersands (join_lines body)))))

  -- What the loop does after a page.
  pub data Turn : Type 0 where
    give_up : Turn
    log_in : Turn
    finish : List String → Turn
    next_page : ℕ → List String → Turn

  abbrev pub read_total : Response N.Json → List String → Result ℕ → Turn
  read_total r all (raised e) = finish (add_domains (parse_legacy_domain_list r.text) all)
  read_total r all (ok total_pages) = next_page total_pages all

  -- A document: its domains are added before the number of pages is read; where that raises, the text
  -- is read as a legacy list as well.
  abbrev pub read_page : Response N.Json → List String → Result N.Json → Turn
  read_page r all (raised e) = finish (add_domains (parse_legacy_domain_list r.text) all)
  read_page r all (ok data_) =
      read_total r (add_domains (page_domains (N.items data_)) all) (N.total_pages data_)

  -- A redirect asks for a login, unless there is a session.
  abbrev pub redirected : Option String → Turn
  redirected none = log_in
  redirected (some s) = give_up

  unfoldable pub turn : Option String → List String → Option (Response N.Json) → Turn
  unfolding add_domains page_domains parse_legacy_domain_list occurs
  turn cookies all none = give_up
  turn cookies all (some r) =
      if r.is_redirect || redirects r.status_code
      then redirected cookies
      else if is_http_error r.status_code || occurs "text/html" r.content_type
      then give_up
      else read_page r all r.json

  abbrev pub page_fields : ℕ → ℕ → List (String × String)
  page_fields page ipp = ("json", "yes") ∷ ("page", N.str page) ∷ ("ipp", N.str ipp) ∷ []

  -- What a listing comes to: `none` is out of fuel, `some (none, c)` is None.
  abbrev pub Listing : Type 0
  Listing = Option (Option (List String) × DirectAdminClient)

  -- The end of a turn, with the client after the page and after a login behind it.
  abbrev pub follow :
      Turn
      → DirectAdminClient
      → Bool × DirectAdminClient
      → (DirectAdminClient → Listing)
      → (ℕ → List String → Listing)
      → Listing
  follow give_up c l again next = some (none, c)
  follow log_in c (false, c') again next = some (none, c')
  follow log_in c (true, c') again next = again c'
  follow (finish all) c l again next = some (some all, c)
  follow (next_page total all) c l again next = next total all

  -- The loop, from a page on
  unfoldable pub list_pages : ℕ → ℕ → ℕ → ℕ → List String → DirectAdminClient → Listing
  unfolding turn
  list_pages zero ipp page total all c = none
  list_pages (suc fuel) ipp page total all c =
      let (r, c') = client_get N "CMD_DNS_ADMIN" (page_fields page ipp) c in
      if leb page total
      then follow (turn c.cookies all r) c' (login N c')
          (λ c''. list_pages fuel ipp page total all c'')
          (λ total' all'. list_pages fuel ipp (page + 1) total' all' c')
      else some (some all, c)

  unfoldable pub list_domains : ℕ → ℕ → DirectAdminClient → Listing
  list_domains fuel ipp c = list_pages fuel ipp 1 1 [] c
