-- ===== src/Da/Domains/Settles.antt =====
-- The loop of `list_domains` (directdnsonly/app/da/client.py) ends, after one login at most.
use directdnsonly.Base.{
  ℕ, zero, suc, ◌+◌, ◌≤◌, String, ◌≡◌, refl, Bool, true, false, ◌||◌, Option, none, some, List, [],
  ◌∷◌, if◌then◌else◌, leb, arith, inl, inr, Bool-cases,
}
use directdnsonly.Base.Exec.{Result, ok, raised}
use directdnsonly.Zone.{occurs}
use directdnsonly.Da.Client.{
  Method, get, post, Request, Response, Net, DirectAdminClient, client_get, login, keep_cookies,
  login_request,
}
use directdnsonly.Da.Domains.{
  Turn, give_up, log_in, finish, next_page, add_domains, page_domains, read_total, read_page,
  redirects, is_http_error, redirected, turn, Listing, follow, page_fields, list_pages,
  list_domains,
}

abbrev is_post : Method → ℕ
is_post get = 0
is_post post = 1

-- The logins among the requests of a client that lists domains: it sends no other POST.
abbrev pub posts : List Request → ℕ
posts [] = 0
posts (r ∷ rs) = posts rs + is_post r.method

-- One more login may follow where there is no session.
abbrev pub slack : Option String → ℕ
slack none = 1
slack (some s) = 0

slack_small : (o : Option String) → slack o ≤ 1
slack_small none = omega arith
slack_small (some s) = omega arith

module _ (N : Net) where
  -- The listing has ended, with so many POSTs at most.
  abbrev pub Settled : ℕ → Listing N → Type 0
  Settled n none = ⊥
  Settled n (some (r, c)) = posts c.sent ≤ n

module _ (N : Net) (M : ℕ)
    (bounded : (data_ : N.Json) (n : ℕ) → N.total_pages data_ ≡ ok n → n ≤ M) where
  -- What a turn may ask for: a login only without a session, and no page beyond the bound.
  abbrev Fits : Option String → Turn N → Type 0
  Fits cookies (next_page n all) = n ≤ M
  Fits cookies give_up = Unit {0}
  Fits cookies log_in = cookies ≡ none
  Fits cookies (finish all) = Unit {0}

  read_total-Fits :
      (cookies : Option String) (r : Response N.Json) (all : List String) (n : Result ℕ)
      → ((k : ℕ) → n ≡ ok k → k ≤ M)
      → Fits cookies (read_total N r all n)
  read_total-Fits cookies r all (raised e) h = tt
  read_total-Fits cookies r all (ok n) h = h n refl

  read_page-Fits :
      (cookies : Option String) (r : Response N.Json) (all : List String) (j : Result N.Json)
      → Fits cookies (read_page N r all j)
  read_page-Fits cookies r all (raised e) = tt
  read_page-Fits cookies r all (ok data_) =
      read_total-Fits cookies r (add_domains (page_domains (N.items data_)) all)
        (N.total_pages data_) (bounded data_)

  redirected-Fits : (cookies : Option String) → Fits cookies (redirected N cookies)
  redirected-Fits none = refl
  redirected-Fits (some s) = tt

  if-Fits :
      (cookies : Option String) (b : Bool) (t u : Turn N)
      → Fits cookies t
      → Fits cookies u
      → Fits cookies (if b then t else u)
  if-Fits cookies true t u h k = h
  if-Fits cookies false t u h k = k

  turn-Fits :
      (cookies : Option String) (all : List String) (r : Option (Response N.Json))
      → Fits cookies (turn N cookies all r)
  unfolding turn
  turn-Fits cookies all none = tt
  turn-Fits cookies all (some r) =
      if-Fits cookies (r.is_redirect || redirects r.status_code) (redirected N cookies) _
        (redirected-Fits cookies)
        (if-Fits cookies (is_http_error r.status_code || occurs "text/html" r.content_type) give_up
          (read_page N r all r.json) tt (read_page-Fits cookies r all r.json))

  weaken-Settled : (m n : ℕ) (l : Listing N) → m ≤ n → Settled N m l → Settled N n l
  weaken-Settled m n none h s = s
  weaken-Settled m n (some (r, c)) h s = omega (arith, h, s)

  -- A page costs no POST and keeps the session; a login costs one, and gives a session if it succeeds.
  got :
      (page ipp : ℕ) (c : DirectAdminClient)
      → let c' = (client_get N "CMD_DNS_ADMIN" (page_fields N page ipp) c).1 in
        (posts c'.sent ≡ posts c.sent) × (c'.cookies ≡ c.cookies)
  unfolding client_get
  got page ipp c = (omega arith, refl)

  abbrev Tried : DirectAdminClient → Bool × DirectAdminClient → Type 0
  Tried c (b, c') = (posts c'.sent ≡ posts c.sent + 1) × (b ≡ true → slack c'.cookies ≡ 0)

  keep_cookies-Tried :
      (r : Result (Response N.Json)) (c c' : DirectAdminClient)
      → posts c'.sent ≡ posts c.sent + 1
      → Tried c (keep_cookies N r c')
  keep_cookies-Tried (raised e) c c' h = (h, λ k. absurd (cc k))
  keep_cookies-Tried (ok r) c c' h = ground (arith, h)

  login-Tried : (c : DirectAdminClient) → Tried c (login N c)
  unfolding login
  login-Tried c =
      let r = login_request N c in
      keep_cookies-Tried (N.answer c.sent r) c (record c { sent = r ∷ c.sent }) (omega arith)

  module _ (c : DirectAdminClient) where
    follow-Settled :
        (t : Turn N) (c' : DirectAdminClient) (l : Bool × DirectAdminClient)
        (again : DirectAdminClient → Listing N) (next : ℕ → List String → Listing N)
        → Fits c.cookies t
        → posts c'.sent ≡ posts c.sent
        → Tried c' l
        → (c.cookies ≡ none
            → (c'' : DirectAdminClient) → slack c''.cookies ≡ 0
            → Settled N (posts c''.sent + slack c''.cookies) (again c''))
        → ((n : ℕ) (all : List String)
            → n ≤ M
            → Settled N (posts c.sent + slack c.cookies) (next n all))
        → Settled N (posts c.sent + slack c.cookies) (follow N t c' l again next)
    follow-Settled give_up c' l again next f p tried a n = omega (arith, p)
    follow-Settled log_in c' (false, c'') again next f p tried a n =
        rw f (omega (arith, p, tried.0))
    follow-Settled log_in c' (true, c'') again next f p tried a n =
        weaken-Settled (posts c''.sent + slack c''.cookies) (posts c.sent + slack c.cookies)
          (again c'') (rw f (omega (arith, p, tried.0, tried.1 refl))) (a f c'' (tried.1 refl))
    follow-Settled (finish all) c' l again next f p tried a n = omega (arith, p)
    follow-Settled (next_page total all) c' l again next f p tried a n = n total all f

  list_pages-Settled :
      (fuel ipp page total : ℕ) (all : List String) (c : DirectAdminClient)
      → page ≤ M + 1
      → total ≤ M
      → M + 2 + slack c.cookies ≤ fuel + page
      → Settled N (posts c.sent + slack c.cookies) (list_pages N fuel ipp page total all c)
  unfolding list_pages
  list_pages-Settled zero ipp page total all c low fits enough = absurd (omega arith)
  list_pages-Settled (suc fuel) ipp page total all c low fits enough =
      elim (Bool-cases (leb page total)) [
        | inl more ↦
            let (r, c') = client_get N "CMD_DNS_ADMIN" (page_fields N page ipp) c in
            let (same_posts, same_cookies) = got page ipp c in
            rw more (
              follow-Settled c (turn N c.cookies all r) c' (login N c') _ _
                (turn-Fits c.cookies all r) same_posts (login-Tried c')
                (λ f c'' s.
                  list_pages-Settled fuel ipp page total all c'' low fits
                    (ground (arith, f, s, enough)))
                (λ n all' h.
                  weaken-Settled (posts c'.sent + slack c'.cookies) (posts c.sent + slack c.cookies)
                    _ (rw same_cookies (omega (arith, same_posts)))
                    (list_pages-Settled fuel ipp (page + 1) n all' c' (ground (arith, more)) h
                      (rw same_cookies (omega (arith, enough))))))
        | inr done ↦ rw done (omega arith)
      ]

-- If no document of the server gives more than `M` pages, where `M` is positive, then with fuel for `M + 2`
-- turns the listing ends, and has sent one login at most, and none if the client had a session.
pub list_domains-Settled :
    (N : Net) (M : ℕ)
    → ((data_ : N.Json) (n : ℕ) → N.total_pages data_ ≡ ok n → n ≤ M)
    → 1 ≤ M
    → (ipp : ℕ) (c : DirectAdminClient)
    → Settled N (posts c.sent + slack c.cookies) (list_domains N (M + 2) ipp c)
unfolding list_domains
list_domains-Settled N M bounded positive ipp c =
    list_pages-Settled N M bounded (M + 2) ipp 1 1 [] c (omega (arith, positive)) positive
      (ground (arith, slack_small c.cookies))
