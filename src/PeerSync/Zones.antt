-- ===== src/PeerSync/Zones.antt =====
-- directdnsonly/app/peer_sync.py: `_sync_from_peer`. The peer's answers over HTTP, parsed as JSON, are
-- parameters; a request or a parse that raises is `raised`.
pub mod Merge
pub mod Arrival
use directdnsonly.Base.{
  ℕ, zero, suc, ◌+◌, String, Bool, true, false, not, ◌&&◌, ◌||◌, Option, none, some, List, [], ◌∷◌,
  if◌then◌else◌, ◌==◌, string_eq, nat_eq, ltb, truthy, truthy?,
}
use directdnsonly.Base.Exec.{Exec, Exc, Result, ok, raised, other, value_error}
use directdnsonly.Database.{Domain, row, or_row, Database}

-- An entry of the peer's zone list.
pub record Entry : Type 0 where
  pub domain : Option String
  pub zone_updated_at : Option String
  pub hostname : Option String
  pub username : Option String

-- A response: its status, and its body if that can be read.
pub record Response (A : Type 0) : Type 0 where
  pub status_code : ℕ
  pub json : Result A

-- What a peer answers, and how time stamps are read: `fromisoformat` raises where it gives `none`.
pub record Peer : Type 0 where
  pub zones : Result (Response (List Entry))
  pub zone : String → Result (Response (Option String))
  pub fromisoformat : String → Option ℕ

-- `datetime.fromisoformat(s) if s else None`
unfoldable pub parse_time : (String → Option ℕ) → Option String → Result (Option ℕ)
parse_time read none = ok none
parse_time read (some s) =
    if truthy s
    then (elim (read s) [ some t ↦ ok (some t) | none ↦ raised value_error ])
    else ok none

-- `peer_ts > local.zone_updated_at`, with a stamp that is missing on one side
abbrev pub is_newer : Option ℕ → Option ℕ → Bool
is_newer none at = false
is_newer (some t) none = true
is_newer (some t) (some u) = ltb u t

abbrev pub lacks_data : Domain → Bool
lacks_data r = elim r.zone_data [ none ↦ true | some z ↦ false ]

unfoldable pub needs_sync : Option Domain → Option ℕ → Bool
needs_sync none peer_ts = true
needs_sync (some r) peer_ts = lacks_data r || is_newer peer_ts r.zone_updated_at

-- The row that a sync of an entry leaves.
unfoldable pub synced_row : String → Entry → Option ℕ → String → Option Domain → Domain
synced_row domain entry peer_ts zone_data none = record {
  domain = domain;
  hostname = entry.hostname;
  username = entry.username;
  zone_data = some zone_data;
  zone_updated_at = peer_ts;
}
synced_row domain entry peer_ts zone_data (some r) = record r {
  zone_data = some zone_data;
  zone_updated_at = peer_ts;
}

-- The zone that a response carries: none for another status than 200 or for a blank zone.
unfoldable pub zone_of : Response (Option String) → Result (Option String)
zone_of r =
    if r.status_code == 200
    then (elim r.json [ raised e ↦ raised e | ok z ↦ ok (if truthy? z then z else none) ])
    else ok none

module _ (D : Database) (P : Peer) where
  -- The row that the session sees: its own changes are flushed before each query.
  abbrev pub seen : List Domain → D.Table → String → Option Domain
  seen dirty t domain = or_row (row domain dirty) (D.find domain t)

  abbrev pub keep_zone :
      String → Entry → Option ℕ → List Domain → Option Domain → Option String → List Domain
  keep_zone domain entry peer_ts dirty local none = dirty
  keep_zone domain entry peer_ts dirty local (some z) =
      synced_row domain entry peer_ts z local ∷ dirty

  abbrev pub keep_result :
      String
      → Entry
      → Option ℕ
      → List Domain
      → Option Domain
      → Result (Option String)
      → Result (List Domain)
  keep_result domain entry peer_ts dirty local (raised e) = raised e
  keep_result domain entry peer_ts dirty local (ok z) =
      ok (keep_zone domain entry peer_ts dirty local z)

  abbrev pub fetch :
      String
      → Entry
      → Option ℕ
      → List Domain
      → Option Domain
      → Result (Response (Option String))
      → Result (List Domain)
  fetch domain entry peer_ts dirty local (raised e) = raised e
  fetch domain entry peer_ts dirty local (ok r) =
      keep_result domain entry peer_ts dirty local (zone_of r)

  abbrev pub sync_at :
      String → Entry → D.Table → List Domain → Result (Option ℕ) → Result (List Domain)
  sync_at domain entry t dirty (raised e) = raised e
  sync_at domain entry t dirty (ok peer_ts) =
      let local = seen dirty t domain in
      if needs_sync local peer_ts
      then fetch domain entry peer_ts dirty local (P.zone domain)
      else ok dirty

  -- One entry for a domain: the changed rows of the session, or an exception.
  unfoldable pub sync_domain : String → Entry → D.Table → List Domain → Result (List Domain)
  unfolding parse_time needs_sync synced_row zone_of
  sync_domain domain entry t dirty =
      sync_at domain entry t dirty (parse_time P.fromisoformat entry.zone_updated_at)

  abbrev pub sync_named : Option String → Entry → D.Table → List Domain → Result (List Domain)
  sync_named none entry t dirty = ok dirty
  sync_named (some domain) entry t dirty =
      if truthy domain then sync_domain domain entry t dirty else ok dirty

  unfoldable pub sync_entry : Entry → D.Table → List Domain → Result (List Domain)
  unfolding sync_domain
  sync_entry entry t dirty = sync_named entry.domain entry t dirty

  -- The loop over the entries, from what the one before left.
  unfoldable pub sync_entries : List Entry → D.Table → Result (List Domain) → Result (List Domain)
  unfolding sync_entry
  sync_entries entries t (raised e) = raised e
  sync_entries [] t (ok dirty) = ok dirty
  sync_entries (entry ∷ entries) t (ok dirty) = sync_entries entries t (sync_entry entry t dirty)

  abbrev pub committed : Option D.Table → Exec D.Table Bool
  committed none t = (raised other, t)
  committed (some u) t = (ok true, u)

  -- `commit()` if some row was synced; an exception before it leaves the table as it was.
  abbrev pub commit_synced : Result (List Domain) → Exec D.Table Bool
  commit_synced (raised e) t = (raised e, t)
  commit_synced (ok []) t = (ok true, t)
  commit_synced (ok (d ∷ ds)) t = committed (D.save (d ∷ ds) t) t

  abbrev pub sync_list : Result (List Entry) → Exec D.Table Bool
  sync_list (raised e) t = (raised e, t)
  sync_list (ok entries) t = commit_synced (sync_entries entries t (ok [])) t

  abbrev pub sync_response : Result (Response (List Entry)) → Exec D.Table Bool
  sync_response (raised e) t = (raised e, t)
  sync_response (ok r) t = if r.status_code == 200 then sync_list r.json t else (ok true, t)

  -- `_sync_from_peer`
  unfoldable pub sync_from_peer : Exec D.Table Bool
  unfolding sync_entries
  sync_from_peer t = sync_response P.zones t
