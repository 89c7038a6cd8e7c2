-- ===== src/Da/Domains/Complete.antt =====
-- What `list_domains` (directdnsonly/app/da/client.py) returns from a server that answers.
use directdnsonly.Base.{
  ℕ, zero, suc, ◌+◌, ◌≤◌, ◌<◌, String, ◌≡◌, refl, Bool, true, false, ◌||◌, Option, none, some, List,
  [], ◌∷◌, string_eq, nat_eq, contains, leb, arith, ◌⊎◌, inl, inr,
}
use directdnsonly.Base.Exec.{ok}
use directdnsonly.Zone.{occurs}
use directdnsonly.Da.Client.{
  Response, Net, DirectAdminClient, client_get, login, get_request, login_request,
}
use directdnsonly.Da.Domains.{
  log_in, next_page, add_domain, add_domains, page_domains, turn, page_fields, Listing, list_pages,
  list_domains,
}

contains-add_domains :
    (d : String) (ds all : List String)
    → contains (add_domains ds all) d ≡ (contains all d || contains ds d)
unfolding add_domains add_domain
contains-add_domains d [] all = ground arith
contains-add_domains d (x ∷ ds) all = ground (arith, contains-add_domains d ds (add_domain x all))

module _ (N : Net) where
  -- An answer with a document
  abbrev pub page_reply : N.Json → Response N.Json
  page_reply data_ = record {
    status_code = 200;
    is_redirect = false;
    content_type = "application/json";
    cookies = none;
    text = "";
    json = ok data_;
  }

  -- A server with `M` pages: with a session it answers a page's request with its document; without one
  -- it does so too, or it redirects; and a login gives a session.
  pub record IsPaged (ipp M : ℕ) (doc : ℕ → N.Json) : Type 0 where
    pub pages : (p : ℕ) → N.total_pages (doc p) ≡ ok M
    pub with_session :
        (c : DirectAdminClient) (s : String) (p : ℕ)
        → c.cookies ≡ some s
        → N.answer c.sent (get_request N c "CMD_DNS_ADMIN" (page_fields N p ipp))
          ≡ ok (page_reply (doc p))
    pub without_session :
        (c : DirectAdminClient) (p : ℕ)
        → c.cookies ≡ none
        → (N.answer c.sent (get_request N c "CMD_DNS_ADMIN" (page_fields N p ipp))
            ≡ ok (page_reply (doc p)))
          ⊎ ((r : Response N.Json) × (N.answer c.sent
                  (get_request N c "CMD_DNS_ADMIN" (page_fields N p ipp))
                ≡ ok r)
              × (r.is_redirect ≡ true))
    pub logs_in :
        (c : DirectAdminClient)
        → (r : Response N.Json) × (s : String) × (N.answer c.sent (login_request N c) ≡ ok r)
          × (r.cookies ≡ some s)

  -- The domain stands on one of `n` pages, from `p` on.
  abbrev pub stands_on : (ℕ → N.Json) → String → ℕ → ℕ → Bool
  stands_on doc d p zero = false
  stands_on doc d p (suc n) =
      contains (page_domains (N.items (doc p))) d || stands_on doc d (p + 1) n

  -- A listing that has ended with the domains of `all` and of those pages.
  abbrev pub Lists : (ℕ → N.Json) → List String → ℕ → ℕ → Listing N → Type 0
  Lists doc all p n none = ⊥
  Lists doc all p n (some (none, c)) = ⊥
  Lists doc all p n (some (some found, c)) =
      (d : String) → contains found d ≡ (contains all d || stands_on doc d p n)

module _ (N : Net) {ipp M : ℕ} {doc : ℕ → N.Json} (V : IsPaged N ipp M doc) where
  page_turn :
      (cookies : Option String) (all : List String) (p : ℕ)
      → turn N cookies all (some (page_reply N (doc p)))
        ≡ next_page M (add_domains (page_domains (N.items (doc p))) all)
  unfolding turn occurs nat_eq
  page_turn cookies all p = rw (V.pages p) refl

  redirect_turn :
      (cookies : Option String) (all : List String) (r : Response N.Json)
      → cookies ≡ none
      → r.is_redirect ≡ true
      → turn N cookies all (some r) ≡ log_in
  unfolding turn
  redirect_turn cookies all r k h = rw (h, k) refl

  page-Lists :
      (all : List String) (p n : ℕ) (l : Listing N)
      → Lists N doc (add_domains (page_domains (N.items (doc p))) all) (p + 1) n l
      → Lists N doc all p (suc n) l
  page-Lists all p n none h = h
  page-Lists all p n (some (none, c)) h = h
  page-Lists all p n (some (some found, c)) h =
      λ d. ground (arith, h d, contains-add_domains d (page_domains (N.items (doc p))) all)

  with_session-Lists :
      (n fuel p total : ℕ) (all : List String) (c : DirectAdminClient) (s : String)
      → c.cookies ≡ some s
      → p + n ≡ M + 1
      → leb p total ≡ leb p M
      → n < fuel
      → Lists N doc all p n (list_pages N fuel ipp p total all c)
  unfolding list_pages client_get
  with_session-Lists n zero p total all c s k e t h = absurd (omega arith)
  with_session-Lists zero (suc fuel) p total all c s k e t h =
      let last : leb p M ≡ false = ground (arith, e) in rw (t, last) (λ d. ground arith)
  with_session-Lists (suc n) (suc fuel) p total all c s k e t h =
      let more : leb p M ≡ true = ground (arith, e) in
      rw (t, more, V.with_session c s p k, page_turn c.cookies all p)
        (page-Lists all p n _
          (with_session-Lists n fuel (p + 1) M _ _ s k (omega (arith, e)) refl (omega (arith, h))))

  without_session-Lists :
      (n fuel p total : ℕ) (all : List String) (c : DirectAdminClient)
      → c.cookies ≡ none
      → p + n ≡ M + 1
      → leb p total ≡ leb p M
      → n + 1 < fuel
      → Lists N doc all p n (list_pages N fuel ipp p total all c)
  unfolding list_pages client_get login
  without_session-Lists n zero p total all c k e t h = absurd (omega arith)
  without_session-Lists zero (suc fuel) p total all c k e t h =
      let last : leb p M ≡ false = ground (arith, e) in rw (t, last) (λ d. ground arith)
  without_session-Lists (suc n) (suc fuel) p total all c k e t h =
      let more : leb p M ≡ true = ground (arith, e) in
      let c' = (client_get N "CMD_DNS_ADMIN" (page_fields N p ipp) c).1 in
      elim (V.without_session c p k) [
        | inl served ↦
            rw (t, more, served, page_turn c.cookies all p)
              (page-Lists all p n _ (
                without_session-Lists n fuel (p + 1) M _ _ k (omega (arith, e)) refl
                  (omega (arith, h))))
        | inr (r, moved, redirect) ↦
            let (l, s, answered, session) = V.logs_in c' in
            rw (t, more, moved, redirect_turn c.cookies all r k redirect, answered, session)
              (with_session-Lists (suc n) fuel p total all _ s refl e t (omega (arith, h)))
      ]

-- From a server with `M` pages, `M` positive, a new client lists with fuel for `M + 2` turns exactly the domains of
-- the pages 1 to `M`, also if the server redirects it to a login first.
pub list_domains-Lists :
    (N : Net) {ipp M : ℕ} {doc : ℕ → N.Json}
    → IsPaged N ipp M doc
    → 1 ≤ M
    → (c : DirectAdminClient) → c.cookies ≡ none
    → Lists N doc [] 1 M (list_domains N (M + 2) ipp c)
unfolding list_domains
list_domains-Lists N {ipp} {M} {doc} V positive c k =
    without_session-Lists N V M (M + 2) 1 1 [] c k (omega arith) (ground (arith, positive))
      (omega arith)
