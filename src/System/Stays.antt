-- ===== src/System/Stays.antt =====
-- A row of the table stays in every change but its deletion.
use directdnsonly.Base.{
  String, ◌≡◌, refl, Bool, true, false, Option, none, some, List, [], ◌∷◌, if◌then◌else◌, ◌==◌,
  string_eq, option_eq, nat_eq,
}
use directdnsonly.Base.Exec.{Result, ok, raised}
use directdnsonly.Database.{Domain, row, or_row, Database, IsDatabase}
use directdnsonly.Index
use directdnsonly.Index.{
  register, check_zone_exists, put_zone_index, update_zone_hostname, transfer,
}
use directdnsonly.PeerSync.Zones.{
  Entry, Response, Peer, sync_entries, sync_from_peer, sync_response, sync_list, commit_synced,
  committed,
}

abbrev pub has_row : Option Domain → Bool
has_row none = false
has_row (some r) = true

module _ {D : Database} (L : IsDatabase D) (k : String) where
  -- A row of the name stays.
  abbrev pub Stays : D.Table → D.Table → Type 0
  Stays t u = has_row (D.find k t) ≡ true → has_row (D.find k u) ≡ true

  pub save-Stays : (ds : List Domain) (t u : D.Table) → D.save ds t ≡ some u → Stays t u
  save-Stays ds t u e h = rw (L.find-save ds t u e k) (over (row k ds) (D.find k t) h)
    where
      over : (o p : Option Domain) → has_row p ≡ true → has_row (or_row o p) ≡ true
      over none p h = h
      over (some r) p h = refl

  add-Stays : (d : Domain) (t u : D.Table) → D.add d t ≡ some u → Stays t u
  add-Stays d t u e h = rw (L.find-add d t u e k) (over (k == d.domain) h)
    where
      over :
          (b : Bool)
          → has_row (D.find k t) ≡ true
          → has_row (if b then some d else D.find k t) ≡ true
      over true h = refl
      over false h = h

  indexed-Stays :
      (o : Option D.Table) (t : D.Table)
      → ((u : D.Table) → o ≡ some u → Stays t u)
      → Stays t (Index.committed o t).1
  indexed-Stays none t f h = h
  indexed-Stays (some u) t f h = f u refl h

  committed-Stays :
      (peer : Peer) (o : Option D.Table) (t : D.Table)
      → ((u : D.Table) → o ≡ some u → Stays t u)
      → Stays t (committed D peer o t).1
  committed-Stays peer none t f h = h
  committed-Stays peer (some u) t f h = f u refl h

  if-Stays :
      (b : Bool) (t : D.Table) (p q : Result Bool × D.Table)
      → Stays t p.1
      → Stays t q.1
      → Stays t (if b then p else q).1
  if-Stays true t p q f g h = f h
  if-Stays false t p q f g h = g h

  transfer-Stays :
      (o : Option Domain) (host user : Option String) (t : D.Table)
      → Stays t (transfer D o host user t).1
  transfer-Stays none host user t h = h
  transfer-Stays (some r) host user t h =
      if-Stays (r.hostname == host) t _ _ (λ h. h)
        (indexed-Stays (D.save (record r { hostname = host; username = user } ∷ []) t) t
          (λ u e. save-Stays _ t u e))
        h

  put-Stays :
      (zone : String) (host user : Option String) (t : D.Table)
      → Stays t (put_zone_index D zone host user t).1
  unfolding put_zone_index
  put-Stays zone host user t =
      let d : Domain = record {
        domain = zone;
        hostname = host;
        username = user;
        zone_data = none;
        zone_updated_at = none;
      } in
      indexed-Stays (D.add d t) t (λ u e. add-Stays d t u e)

  pub register-Stays :
      (zone : String) (host user : Option String) (t : D.Table)
      → Stays t (register D zone host user t).1
  unfolding register update_zone_hostname
  register-Stays zone host user t h =
      if-Stays (check_zone_exists D zone t) t _ _ (transfer-Stays (D.find zone t) host user t)
        (put-Stays zone host user t) h

  commit_synced-Stays :
      (peer : Peer) (done : Result (List Domain)) (t : D.Table)
      → Stays t (commit_synced D peer done t).1
  commit_synced-Stays peer (raised e) t h = h
  commit_synced-Stays peer (ok []) t h = h
  commit_synced-Stays peer (ok (d ∷ ds)) t h =
      committed-Stays peer (D.save (d ∷ ds) t) t (λ u e. save-Stays (d ∷ ds) t u e) h

  sync_list-Stays :
      (peer : Peer) (entries : Result (List Entry)) (t : D.Table)
      → Stays t (sync_list D peer entries t).1
  sync_list-Stays peer (raised e) t h = h
  sync_list-Stays peer (ok entries) t h =
      commit_synced-Stays peer (sync_entries D peer entries t (ok [])) t h

  pub sync-Stays : (peer : Peer) (t : D.Table) → Stays t (sync_from_peer D peer t).1
  unfolding sync_from_peer
  sync-Stays peer t = answered peer.zones
    where
      answered : (r : Result (Response (List Entry))) → Stays t (sync_response D peer r t).1
      answered (raised e) h = h
      answered (ok r) h =
          if-Stays (r.status_code == 200) t _ _ (sync_list-Stays peer r.json t) (λ h. h) h
