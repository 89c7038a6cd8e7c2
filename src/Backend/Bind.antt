-- ===== src/Backend/Bind.antt =====
-- directdnsonly/app/backends/bind.py: `BINDBackend`.
pub mod Stale
use directdnsonly.Base.{
  ℕ, ◌+◌, String, ◌<>◌, Bool, true, false, Option, none, some, List, [], ◌∷◌, if◌then◌else◌, ◌&&◌,
}
use directdnsonly.Base.Exec.{Exec, Result, ok, raised, io_error}
use directdnsonly.Backend.{DnsBackend, base_verify_zone_record_count, base_reconcile_zone_records}
use directdnsonly.Backend.Files.{
  System, Zones, zone_write, written_zone, unlinked_zone, content_after, succeeds, exists,
}

-- An instance: its directory, the content of its `named.conf` include, the reload commands that it
-- has run (`none` is a reload of all zones), and the calls that it has made.
pub record BindBackend : Type 0 where
  pub zones_dir : String
  pub zones : Zones
  pub named_conf : String
  pub reloads : List (Option String)
  pub calls : ℕ

-- The line of one zone in `named.conf`.
unfoldable pub stanza : String → String → String
stanza zones_dir zone =
    "zone \""
    <> (zone <> ("\" { type master; file \"" <> (zones_dir <> ("/" <> (zone <> ".db\"; };\n")))))

unfoldable pub stanzas : String → List String → String
unfolding stanza
stanzas zones_dir [] = ""
stanzas zones_dir (zone ∷ zones) = stanza zones_dir zone <> stanzas zones_dir zones

module _ (os : System) where
  unfoldable pub write_zone : String → String → Exec BindBackend Bool
  write_zone zone_name zone_data b =
      let w = zone_write os zone_name b.calls in
      (
        ok (succeeds w),
        record b { zones = written_zone w zone_name zone_data b.zones; calls = b.calls + 1 },
      )

  unfoldable pub delete_zone : String → Exec BindBackend Bool
  delete_zone zone_name b =
      if os.reachable zone_name && exists zone_name b.zones
      then (let w = os.write b.calls in
          (
            ok (succeeds w),
            record b { zones = unlinked_zone w zone_name b.zones; calls = b.calls + 1 },
          ))
      else (ok false, b)

  unfoldable pub reload_zone : Option String → Exec BindBackend Bool
  reload_zone zone_name b =
      (ok (os.control b.calls), record b { reloads = zone_name ∷ b.reloads; calls = b.calls + 1 })

  unfoldable pub zone_exists : String → Exec BindBackend Bool
  zone_exists zone_name b =
      (if os.reachable zone_name then ok (exists zone_name b.zones) else raised io_error, b)

  -- The file is written line by line; a failure may leave any content.
  unfoldable pub update_named_conf : List String → Exec BindBackend Bool
  update_named_conf zones b =
      let w = os.write b.calls in
      (
        ok (succeeds w),
        record b {
          named_conf = content_after w b.named_conf (stanzas b.zones_dir zones);
          calls = b.calls + 1;
        },
      )

  abbrev pub bind_backend : DnsBackend BindBackend
  bind_backend = record {
    get_name = λ b. "bind";
    write_zone = write_zone;
    delete_zone = delete_zone;
    reload_zone = reload_zone;
    zone_exists = zone_exists;
    update_named_conf = update_named_conf;
    verify_zone_record_count = base_verify_zone_record_count;
    reconcile_zone_records = base_reconcile_zone_records;
  }
