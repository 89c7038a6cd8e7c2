-- ===== src/Da/Servers/Ensured.antt =====
-- What `ensure_extra_dns_server` (directdnsonly/app/da/client.py) sends and answers.
use directdnsonly.Base.{
  ℕ, String, ◌≡◌, Bool, ◌&&◌, ◌||◌, List, [], ◌∷◌, if◌then◌else◌, string_eq, contains, arith,
}
use directdnsonly.Da.Client.{
  Request, Net, DirectAdminClient, get_request, post_request, or_none, client_get, client_post,
}
use directdnsonly.Da.Servers.{
  servers_in, succeeded, add_fields, save_fields, get_extra_dns_servers, add_extra_dns_server,
  ensure_extra_dns_server,
}

module _ (N : Net) (ip : String) (port : ℕ) (user passwd : String) (ssl : Bool)
    (c : DirectAdminClient) where
  abbrev pub command : String
  command = "CMD_MULTI_SERVER"

  abbrev pub list_request : Request
  list_request = get_request N c command (("json", "yes") ∷ [])

  abbrev pub add_request : Request
  add_request = post_request N c command (add_fields N ip port user passwd ssl)

  abbrev pub save_request : Request
  save_request = post_request N c command (save_fields N ip port user passwd ssl)

  -- The server was registered before.
  abbrev pub is_registered : Bool
  is_registered = contains (servers_in N (or_none N (N.answer c.sent list_request))) ip

  -- What the request brings after others
  abbrev pub reports_success : List Request → Request → Bool
  reports_success before r = succeeded N (or_none N (N.answer before r))

  abbrev pub is_added : Bool
  is_added = reports_success (list_request ∷ c.sent) add_request

  -- The requests before the one that configures the server, newest first
  abbrev pub prepared : List Request
  prepared = if is_registered then list_request ∷ c.sent else add_request ∷ list_request ∷ c.sent

  -- A server that is not registered is added first, and only then; a server that is registered, or was
  -- added with success, is configured; and the answer is true exactly if that reports success.
  pub ensure_extra_dns_server_lem :
      let result = ensure_extra_dns_server N ip port user passwd ssl c in
      (result.1.sent ≡ (if is_registered || is_added then save_request ∷ prepared else prepared))
      × (result.0 ≡ ((is_registered || is_added) && reports_success prepared save_request))
  unfolding ensure_extra_dns_server get_extra_dns_servers add_extra_dns_server client_get
      client_post
  ensure_extra_dns_server_lem = ground arith
