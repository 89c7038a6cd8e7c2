-- ===== src/PeerSync/Peers.antt =====
-- directdnsonly/app/peer_sync.py: the list of peers, from the configuration, the environment and the
-- peers' own lists.
pub mod Known
use directdnsonly.Base.{
  ℕ, zero, suc, ◌+◌, String, Bool, true, false, not, ◌&&◌, Option, none, some, List, [], ◌∷◌, ◌++◌,
  map, if◌then◌else◌, ◌==◌, string_eq, option_eq, contains, truthy, truthy?,
}

pub record PeerConfig : Type 0 where
  pub url : Option String
  pub username : Option String
  pub password : Option String

abbrev pub urls : List PeerConfig → List (Option String)
urls = map (λ p. p.url)

-- The variables of one peer: its URL, stripped, and its credentials with their defaults.
pub record EnvPeer : Type 0 where
  pub url : String
  pub username : String
  pub password : String

abbrev pub candidate : EnvPeer → PeerConfig
candidate e = record { url = some e.url; username = some e.username; password = some e.password }

-- The numbered variables are read from 1 up, until a URL is blank. The list has the nine of them.
unfoldable pub numbered : List EnvPeer → List PeerConfig
numbered [] = []
numbered (e ∷ es) = let rest = numbered es in if truthy e.url then candidate e ∷ rest else []

unfoldable pub env_candidates : EnvPeer → List EnvPeer → List PeerConfig
unfolding numbered
env_candidates single others =
    if truthy single.url then candidate single ∷ numbered others else numbered others

-- `append` for each candidate whose URL is not known
unfoldable pub add_new : List PeerConfig → List PeerConfig → List PeerConfig
add_new [] peers = peers
add_new (c ∷ cs) peers =
    add_new cs (if contains (urls peers) c.url then peers else peers ++ (c ∷ []))

-- The peers of a new worker.
unfoldable pub initial_peers : List PeerConfig → EnvPeer → List EnvPeer → List PeerConfig
unfolding add_new env_candidates
initial_peers configured single others = add_new (env_candidates single others) configured

-- `get_peer_urls`
unfoldable pub get_peer_urls : List PeerConfig → List String
get_peer_urls [] = []
get_peer_urls (p ∷ ps) = elim p.url [
  | none ↦ get_peer_urls ps
  | some u ↦ if truthy u then u ∷ get_peer_urls ps else get_peer_urls ps
]

-- A new peer inherits the credentials of the one that names it.
abbrev pub introduced : PeerConfig → String → PeerConfig
introduced peer remote_url = record peer { url = some remote_url }

-- One remote URL of a discovery.
unfoldable pub meet : PeerConfig → String → List PeerConfig → List PeerConfig
meet peer remote_url peers =
    if truthy remote_url && not (contains (urls peers) (some remote_url))
    then peers ++ (introduced peer remote_url ∷ [])
    else peers

-- `_discover_peers_from`, on the list that the peer answers; any failure there is an empty list.
unfoldable pub discover : PeerConfig → List String → List PeerConfig → List PeerConfig
unfolding meet
discover peer [] peers = peers
discover peer (remote_url ∷ rest) peers = discover peer rest (meet peer remote_url peers)
