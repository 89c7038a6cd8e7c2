-- ===== src/Internal/Gossip.antt =====
-- What a discovery learns from the internal API of another instance (directdnsonly/app/peer_sync.py and
-- app/api/internal.py).
use directdnsonly.Base.{
  String, ◌≡◌, refl, true, ◌&&◌, ◌||◌, some, List, [], ◌∷◌, string_eq, option_eq, contains, truthy,
  arith,
}
use directdnsonly.PeerSync.Peers.{PeerConfig, urls, get_peer_urls, discover}
use directdnsonly.PeerSync.Peers.Known.{contains-discover}
use directdnsonly.Internal.{peers}

contains-get_peer_urls :
    (ps : List PeerConfig) (u : String)
    → (truthy u && contains (get_peer_urls ps) u) ≡ (truthy u && contains (urls ps) (some u))
unfolding get_peer_urls
contains-get_peer_urls [] u = refl
contains-get_peer_urls (p ∷ ps) u = ground (arith, contains-get_peer_urls ps u)

-- After an instance has discovered from another one that serves its list of peers, it knows a URL that
-- is not blank exactly if one of the two knew it.
pub contains-discover-peers :
    (asked : PeerConfig) (mine theirs : List PeerConfig) (u : String)
    → truthy u ≡ true
    → contains (urls (discover asked (peers (some theirs)) mine)) (some u)
      ≡ (contains (urls mine) (some u) || contains (urls theirs) (some u))
unfolding peers
contains-discover-peers asked mine theirs u h =
    ground (
      arith,
      contains-discover asked (get_peer_urls theirs) mine u,
      contains-get_peer_urls theirs u,
    )
