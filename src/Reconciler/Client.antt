-- ===== src/Reconciler/Client.antt =====
-- The poll of directdnsonly/app/reconciler.py with the client of directdnsonly/app/da/client.py.
pub mod Owners
use directdnsonly.Base.{ℕ, String, Bool, Option, none, some, List}
use directdnsonly.Base.Exec.{Result, ok}
use directdnsonly.Da.Client.{Net, DirectAdminClient, new_client}
use directdnsonly.Da.Domains.{Listing, list_domains}

-- The rest of a server's entry in the configuration
pub record Account : Type 0 where
  pub port : ℕ
  pub username : String
  pub password : String
  pub ssl : Bool

-- What a listing gives. On the turns that cover a server's pages a listing ends.
abbrev pub listed :
    Option (Option (List String) × DirectAdminClient) → Result (Option (List String))
listed none = ok none
listed (some (answer, c)) = ok answer

-- A new client for the server, and its list
unfoldable pub list_with_client :
    (String → Net) → (String → Account) → (String → ℕ) → ℕ → String → Result (Option (List String))
unfolding new_client
list_with_client net account turns ipp hostname =
    let a = account hostname in
    listed (
      list_domains (net hostname) (turns hostname) ipp
        (new_client hostname a.port a.username a.password a.ssl))
