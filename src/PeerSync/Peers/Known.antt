-- ===== src/PeerSync/Peers/Known.antt =====
-- The peers that are known after a discovery (directdnsonly/app/peer_sync.py, `_discover_peers_from`).
use directdnsonly.Base.{
  String, ◌≡◌, refl, false, ◌&&◌, ◌||◌, Option, some, List, [], ◌∷◌, ◌++◌, ◌==◌, string_eq,
  option_eq, contains, truthy, arith,
}
use directdnsonly.PeerSync.Peers.{PeerConfig, urls, introduced, meet, discover}

-- No element occurs twice.
abbrev pub IsDistinct : List (Option String) → Type 0
IsDistinct [] = Unit {0}
IsDistinct (u ∷ us) = (contains us u ≡ false) × IsDistinct us

contains-urls :
    (ps : List PeerConfig) (p : PeerConfig) (u : Option String)
    → contains (urls (ps ++ (p ∷ []))) u ≡ (contains (urls ps) u || (u == p.url))
contains-urls [] p u = ground arith
contains-urls (q ∷ ps) p u = ground (arith, contains-urls ps p u)

append-IsDistinct :
    (ps : List PeerConfig) (p : PeerConfig)
    → contains (urls ps) p.url ≡ false
    → IsDistinct (urls ps)
    → IsDistinct (urls (ps ++ (p ∷ [])))
append-IsDistinct [] p h d = (refl, tt)
append-IsDistinct (q ∷ ps) p h d = ground (arith, append-IsDistinct ps p, contains-urls ps p q.url)

contains-meet :
    (peer : PeerConfig) (v : String) (peers : List PeerConfig) (u : String)
    → contains (urls (meet peer v peers)) (some u)
      ≡ (contains (urls peers) (some u) || (truthy u && (u == v)))
unfolding meet
contains-meet peer v peers u = ground (arith, contains-urls peers (introduced peer v) (some u))

meet-IsDistinct :
    (peer : PeerConfig) (v : String) (peers : List PeerConfig)
    → IsDistinct (urls peers)
    → IsDistinct (urls (meet peer v peers))
unfolding meet
meet-IsDistinct peer v peers d = ground (arith, append-IsDistinct peers (introduced peer v))

-- The URLs that are known after a discovery are those known before and the remote ones that are
-- not blank.
pub contains-discover :
    (peer : PeerConfig) (remote : List String) (peers : List PeerConfig) (u : String)
    → contains (urls (discover peer remote peers)) (some u)
      ≡ (contains (urls peers) (some u) || (truthy u && contains remote u))
unfolding discover
contains-discover peer [] peers u = ground arith
contains-discover peer (v ∷ remote) peers u =
    ground
      (arith, contains-discover peer remote (meet peer v peers) u, contains-meet peer v peers u)

-- If no URL is known twice, none is after a discovery.
pub discover-IsDistinct :
    (peer : PeerConfig) (remote : List String) (peers : List PeerConfig)
    → IsDistinct (urls peers)
    → IsDistinct (urls (discover peer remote peers))
unfolding discover
discover-IsDistinct peer [] peers d = d
discover-IsDistinct peer (v ∷ remote) peers d =
    discover-IsDistinct peer remote (meet peer v peers) (meet-IsDistinct peer v peers d)
