-- ===== src/Da/Client.antt =====
-- directdnsonly/app/da/client.py: the state of `DirectAdminClient`, its requests and the login.
-- The requests package and the servers behind it are a parameter: what comes back for a request,
-- given the requests sent before.
use directdnsonly.Base.{
  ℕ, String, ◌<>◌, Bool, true, false, Option, none, some, List, [], ◌∷◌, if◌then◌else◌,
}
use directdnsonly.Base.Exec.{Result, ok, raised}

pub data Method : Type 0 where
  get : Method
  post : Method

-- A request carries the session's cookies if there are some, else user name and password.
pub record Request : Type 0 where
  pub method : Method
  pub url : String
  pub fields : List (String × String)
  pub session : Option String

-- The cookies of a response are `none` if there are none.
pub record Response (Json : Type 0) : Type 0 where
  pub status_code : ℕ
  pub is_redirect : Bool
  pub content_type : String
  pub cookies : Option String
  pub text : String
  pub json : Result Json

-- The library: the answers, and what the client reads of a parsed document. `items` are the document's
-- keys, each with its `domain` if its value is a dict that has one; `total_pages` raises where `int`
-- does; `servers` and `success` raise where the document is no dict.
pub record Net : Type 1 where
  pub Json : Type 0
  pub answer : List Request → Request → Result (Response Json)
  pub items : Json → List (String × Option String)
  pub total_pages : Json → Result ℕ
  pub servers : Json → Result (List String)
  pub success : Json → Result Bool
  pub parse_qs : String → List (String × List String)
  pub str : ℕ → String

-- `sent` holds the requests so far, newest first.
pub record DirectAdminClient : Type 0 where
  pub hostname : String
  pub port : ℕ
  pub username : String
  pub password : String
  pub scheme : String
  pub cookies : Option String
  pub sent : List Request

-- A client as the constructor makes it
unfoldable pub new_client : String → ℕ → String → String → Bool → DirectAdminClient
new_client hostname port username password ssl = record {
  hostname = hostname;
  port = port;
  username = username;
  password = password;
  scheme = if ssl then "https" else "http";
  cookies = none;
  sent = [];
}

module _ (N : Net) where
  unfoldable pub url_for : DirectAdminClient → String → String
  url_for c command =
      c.scheme <> ("://" <> (c.hostname <> (":" <> (N.str c.port <> ("/" <> command)))))

  -- A call of the library: the answer, and the client with the request sent.
  abbrev pub request : Request → DirectAdminClient → Result (Response N.Json) × DirectAdminClient
  request r c = (N.answer c.sent r, record c { sent = r ∷ c.sent })

  abbrev pub or_none : {A : Type 0} → Result A → Option A
  or_none (ok a) = some a
  or_none (raised e) = none

  abbrev pub get_request : DirectAdminClient → String → List (String × String) → Request
  get_request c command params = record {
    method = get;
    url = url_for c command;
    fields = params;
    session = c.cookies;
  }

  abbrev pub post_request : DirectAdminClient → String → List (String × String) → Request
  post_request c command data_ = record {
    method = post;
    url = url_for c command;
    fields = data_;
    session = c.cookies;
  }

  -- An exception of a request is logged, and the answer is None.
  unfoldable pub client_get :
      String
      → List (String × String)
      → DirectAdminClient
      → Option (Response N.Json) × DirectAdminClient
  unfolding url_for
  client_get command params c =
      let (r, c') = request (get_request c command params) c in (or_none r, c')

  unfoldable pub client_post :
      String
      → List (String × String)
      → DirectAdminClient
      → Option (Response N.Json) × DirectAdminClient
  unfolding url_for
  client_post command data_ c =
      let (r, c') = request (post_request c command data_) c in (or_none r, c')

  -- The login carries no session.
  abbrev pub login_request : DirectAdminClient → Request
  login_request c = record {
    method = post;
    url = url_for c "CMD_LOGIN";
    fields =
        ("username", c.username)
        ∷ ("password", c.password)
        ∷ ("referer", "/CMD_DNS_ADMIN?json=yes&page=1&ipp=500")
        ∷ [];
    session = none;
  }

  abbrev pub keep_cookies : Result (Response N.Json) → DirectAdminClient → Bool × DirectAdminClient
  keep_cookies (raised e) c = (false, c)
  keep_cookies (ok r) c = elim r.cookies [
    | none ↦ (false, c)
    | some cookies ↦ (true, record c { cookies = some cookies })
  ]

  unfoldable pub login : DirectAdminClient → Bool × DirectAdminClient
  unfolding url_for
  login c = let (r, c') = request (login_request c) c in keep_cookies r c'
