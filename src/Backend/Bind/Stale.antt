-- ===== src/Backend/Bind/Stale.antt =====
-- A delete under BIND, and the `named.conf` that it writes.
use directdnsonly.Base.{
  ◌+◌, String, ◌≡◌, true, none, some, List, [], ◌∷◌, string_eq, contains, map, arith, refl, ap, ◌∙◌,
  ==_iff,
}
use directdnsonly.Database.{Domain, Database, IsDatabase}
use directdnsonly.Database.Rows.{contains-all}
use directdnsonly.Zone.{occurs}
use directdnsonly.Zone.Occurs.{occurs-prefix, occurs-append}
use directdnsonly.Backend.Files.{System, written, zone_file, exists, unlink, zone_file-unlink}
use directdnsonly.Backend.Bind.{
  BindBackend, bind_backend, stanza, stanzas, delete_zone, update_named_conf, reload_zone,
}
use directdnsonly.Base.Exec.{ok}
use directdnsonly.Worker.Backends.{delete_single_backend}

-- The text of the zones holds the line of each.
occurs-stanzas :
    (dir zone : String) (zones : List String)
    → contains zones zone ≡ true
    → occurs (stanza dir zone) (stanzas dir zones) ≡ true
unfolding stanzas
occurs-stanzas dir zone [] h = cc
occurs-stanzas dir zone (z ∷ zones) h = elim (string_eq.dec zone z) [
  | yes p ↦ rw p (occurs-prefix (stanza dir z) (stanzas dir zones))
  | no p ↦
      occurs-append (stanza dir zone) (stanza dir z) (stanzas dir zones)
        (occurs-stanzas dir zone zones (ground arith))
]

module _ (os : System) (D : Database) (L : IsDatabase D) where
  -- The instance after the delete of the file
  abbrev removed_from : String → BindBackend → BindBackend
  removed_from zone b = record b { zones = unlink zone b.zones; calls = b.calls + 1 }

  -- The instance after the rewriting of `named.conf`
  abbrev rewritten_for : List String → BindBackend → BindBackend
  rewritten_for domains b = record b {
    named_conf = stanzas b.zones_dir domains;
    calls = b.calls + 1;
  }

  delete_zone_done :
      (zone : String) (b : BindBackend)
      → os.reachable zone ≡ true
      → exists zone b.zones ≡ true
      → os.write b.calls ≡ written
      → delete_zone os zone b ≡ (ok true, removed_from zone b)
  unfolding delete_zone
  delete_zone_done zone b reached there removed = ground (arith, reached, there, removed)

  update_named_conf_done :
      (domains : List String) (b : BindBackend)
      → os.write b.calls ≡ written
      → update_named_conf os domains b ≡ (ok true, rewritten_for domains b)
  unfolding update_named_conf
  update_named_conf_done domains b wrote = rw wrote refl

  done_backend :
      (zone : String) (domains : List String) (b : BindBackend)
      → delete_zone os zone b ≡ (ok true, removed_from zone b)
      → update_named_conf os domains (removed_from zone b)
        ≡ (ok true, rewritten_for domains (removed_from zone b))
      → let (success, b') = delete_single_backend (bind_backend os) zone domains b in
        (success ≡ true)
        × (b'.zones ≡ unlink zone b.zones)
        × (b'.named_conf ≡ stanzas b.zones_dir domains)
  unfolding delete_single_backend reload_zone
  done_backend zone domains b deletes updates = ground arith

  -- The delete worker passes the names of all rows, that of the deleted zone among them. So under
  -- BIND, where the path can be looked up and the system calls succeed, the delete of a zone removes its file and reports success, and leaves its line in
  -- `named.conf`.
  pub delete_leaves_stanza :
      (zone : String) (t : D.Table) (r : Domain) (b : BindBackend)
      → D.find zone t ≡ some r
      → os.reachable zone ≡ true
      → exists zone b.zones ≡ true
      → os.write b.calls ≡ written
      → os.write (b.calls + 1) ≡ written
      → let (success, b') =
          delete_single_backend (bind_backend os) zone (map (λ d. d.domain) (D.all t)) b in
        (success ≡ true)
        × (zone_file zone b'.zones ≡ none)
        × (occurs (stanza b.zones_dir zone) b'.named_conf ≡ true)
  delete_leaves_stanza zone t r b found reached there removed wrote =
      let domains = map (λ (d : Domain). d.domain) (D.all t) in
      let (success, zones, conf) =
        done_backend zone domains b (delete_zone_done zone b reached there removed)
          (update_named_conf_done domains (removed_from zone b) wrote) in
      (
        success,
        ap (zone_file zone) zones
            ∙ zone_file-unlink zone zone b.zones
            ∙ rw ((==_iff zone zone).1 refl),
        ap (occurs (stanza b.zones_dir zone)) conf
            ∙ occurs-stanzas b.zones_dir zone domains (contains-all L zone t found),
      )
