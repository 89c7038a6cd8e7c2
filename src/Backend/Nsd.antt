-- ===== src/Backend/Nsd.antt =====
-- directdnsonly/app/backends/nsd.py: `NSDBackend`, with the text of its include file.
pub mod Calls
pub mod Conf
pub mod Included
pub mod Matching
pub mod Printed
pub mod Removal
use Prim.Native.Char.{code}
use Prim.Native.String.{count}
use directdnsonly.Base.{
  ℕ, zero, suc, ◌+◌, String, ◌<>◌, Bool, true, false, Option, none, some, List, [], ◌∷◌,
  if◌then◌else◌, ◌==◌, nat_eq, not, ◌&&◌, string_eq,
}
use directdnsonly.Base.Exec.{Exec, ok, raise, raised, io_error, other}
use directdnsonly.Backend.{DnsBackend, base_verify_zone_record_count, base_reconcile_zone_records}
use directdnsonly.Backend.Files.{
  System, Write, written, refused, torn, Zones, zone_write, written_zone, unlinked_zone, succeeds,
  exists,
}
use directdnsonly.Zone.{occurs}

-- An instance; `nsd_conf` is `none` where the include file does not exist.
pub record NsdBackend : Type 0 where
  pub zones_dir : String
  pub zones : Zones
  pub nsd_conf : Option String
  pub reloads : List (Option String)
  pub calls : ℕ

unfoldable pub name_line : String → String
name_line zone_name = "name: \"" <> (zone_name <> "\"")

unfoldable pub stanza : String → String → String
stanza zones_dir zone_name =
    "\nzone:\n    name: \""
    <> (zone_name <> ("\"\n    zonefile: \"" <> (zones_dir <> ("/" <> (zone_name <> ".db\"\n")))))

unfoldable pub stanzas : String → List String → String
unfolding stanza
stanzas zones_dir [] = ""
stanzas zones_dir (zone ∷ zones) = stanza zones_dir zone <> stanzas zones_dir zones

-- The rest of a text behind a prefix that it begins with.
pub strip_prefix : String → String → Option String
strip_prefix String.[] s = some s
strip_prefix (String.◌∷◌ c p) String.[] = none
strip_prefix (String.◌∷◌ c p) (String.◌∷◌ d s) =
    let rest = strip_prefix p s in if code c == code d then rest else none

-- `[^"]+"\n`: the rest of a text behind a quoted word's end; `some_seen` tells that the word has begun.
pub skip_word : Bool → String → Option String
skip_word some_seen String.[] = none
skip_word some_seen (String.◌∷◌ c s) =
    let rest = skip_word true s in
    if code c == 34 then (if some_seen then strip_prefix "\n" s else none) else rest

abbrev after_head : Option String → Option String
after_head none = none
after_head (some s) = skip_word false s

-- The pattern of `_remove_zone_from_conf`, anchored where the text begins: the rest behind a match.
pub match_stanza : String → String → Option String
match_stanza zone_name s =
    after_head (strip_prefix ("\nzone:\n    name: \"" <> (zone_name <> "\"\n    zonefile: \"")) s)

-- `re.sub(pattern, "", content)`: the text without its leftmost matches, which do not overlap. The
-- fuel is the number of characters.
pub sub_stanza : ℕ → String → String → String
sub_stanza zero zone_name s = s
sub_stanza (suc fuel) zone_name String.[] = ""
sub_stanza (suc fuel) zone_name (String.◌∷◌ c s) = elim (match_stanza zone_name (String.◌∷◌ c s)) [
  | some rest ↦ sub_stanza fuel zone_name rest
  | none ↦ String.◌∷◌ c (sub_stanza fuel zone_name s)
]

unfoldable pub without_stanza : String → String → String
unfolding strip_prefix skip_word match_stanza sub_stanza
without_stanza zone_name content = sub_stanza (count content) zone_name content

abbrev pub text_of : Option String → String
text_of none = ""
text_of (some s) = s

-- The include file after a call that was to write it.
abbrev pub conf_after : Write → Option String → String → Option String
conf_after written old new = some new
conf_after refused old new = old
conf_after (torn s) old new = some s

module _ (os : System) where
  -- A write to the include file that may raise.
  abbrev write_conf : String → NsdBackend → Bool × NsdBackend
  write_conf content b =
      let w = os.write b.calls in
      (succeeds w, record b { nsd_conf = conf_after w b.nsd_conf content; calls = b.calls + 1 })

  -- `_ensure_zone_in_conf`; false is an `IOError`
  unfoldable pub ensure_zone_in_conf : String → NsdBackend → Bool × NsdBackend
  unfolding name_line stanza occurs
  ensure_zone_in_conf zone_name b =
      let content = text_of b.nsd_conf in
      if not (os.read b.calls)
      then (false, b)
      else if occurs (name_line zone_name) content
      then (true, b)
      else write_conf (content <> stanza b.zones_dir zone_name) b

  -- `_remove_zone_from_conf`; false is an `IOError`
  unfoldable pub remove_zone_from_conf : String → NsdBackend → Bool × NsdBackend
  unfolding without_stanza
  remove_zone_from_conf zone_name b = elim b.nsd_conf [
    | none ↦ (true, b)
    | some content ↦
        let new_content = without_stanza zone_name content in
        if not (os.read b.calls)
        then (false, b)
        else if new_content == content
        then (true, b)
        else write_conf new_content b
  ]

  unfoldable pub write_zone : String → String → Exec NsdBackend Bool
  unfolding ensure_zone_in_conf
  write_zone zone_name zone_data b =
      let w = zone_write os zone_name b.calls in
      let b' : NsdBackend = record b {
        zones = written_zone w zone_name zone_data b.zones;
        calls = b.calls + 1;
      } in
      if succeeds w
      then (let (done, b'') = ensure_zone_in_conf zone_name b' in (ok done, b''))
      else (ok false, b')

  unfoldable pub delete_zone : String → Exec NsdBackend Bool
  unfolding remove_zone_from_conf
  delete_zone zone_name b =
      if os.reachable zone_name && exists zone_name b.zones
      then (let w = os.write b.calls in
          let b' : NsdBackend = record b {
            zones = unlinked_zone w zone_name b.zones;
            calls = b.calls + 1;
          } in
          if succeeds w
          then (let (done, b'') = remove_zone_from_conf zone_name b' in (ok done, b''))
          else (ok false, b'))
      else (ok false, b)

  unfoldable pub reload_zone : Option String → Exec NsdBackend Bool
  reload_zone zone_name b =
      (ok (os.control b.calls), record b { reloads = zone_name ∷ b.reloads; calls = b.calls + 1 })

  unfoldable pub zone_exists : String → Exec NsdBackend Bool
  zone_exists zone_name b =
      (if os.reachable zone_name then ok (exists zone_name b.zones) else raised io_error, b)

  unfoldable pub update_nsd_conf : List String → Exec NsdBackend Bool
  unfolding stanzas
  update_nsd_conf zones b =
      let (done, b') = write_conf (stanzas b.zones_dir zones) b in (ok done, b')

  -- `update_named_conf` is not a method of the class: the call would raise.
  abbrev pub nsd_backend : DnsBackend NsdBackend
  nsd_backend = record {
    get_name = λ b. "nsd";
    write_zone = write_zone;
    delete_zone = delete_zone;
    reload_zone = reload_zone;
    zone_exists = zone_exists;
    update_named_conf = λ zones. raise other;
    verify_zone_record_count = base_verify_zone_record_count;
    reconcile_zone_records = base_reconcile_zone_records;
  }
