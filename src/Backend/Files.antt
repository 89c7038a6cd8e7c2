-- ===== src/Backend/Files.antt =====
-- What the file-based backends ask of the operating system.
use directdnsonly.Base.{
  ℕ, ◌≡◌, refl, arith, String, Bool, true, false, Option, none, some, List, [], ◌∷◌, if◌then◌else◌,
  ◌==◌, string_eq,
}

-- How a call that writes a file ends: done, refused with the file as it was, or failed half way,
-- with some other content. The last two raise an `IOError`.
pub data Write : Type 0 where
  written : Write
  refused : Write
  torn : String → Write

-- Whether the path of a zone's file can be looked up: if not, as when the name is too long or the
-- directory may not be searched, every call on it raises an `OSError`. Then the outcome of the n-th
-- call that writes or unlinks a file, whether the n-th look at a configuration file raises none, and
-- the outcome of the n-th run of the daemon's control command: true if it exits with 0. Every file is
-- a text that can be decoded.
pub record System : Type 0 where
  pub reachable : String → Bool
  pub write : ℕ → Write
  pub read : ℕ → Bool
  pub control : ℕ → Bool

-- The outcome of a call that writes the file of a zone
abbrev pub zone_write : System → String → ℕ → Write
zone_write os zone n = if os.reachable zone then os.write n else refused

abbrev pub succeeds : Write → Bool
succeeds written = true
succeeds refused = false
succeeds (torn s) = false

-- The content of a file after a call that was to give it `new`.
abbrev pub content_after : Write → String → String → String
content_after written old new = new
content_after refused old new = old
content_after (torn s) old new = s

-- The zone files of a directory, by the name of the zone: `<zones_dir>/<zone>.db`.
abbrev pub Zones : Type 0
Zones = List (String × String)

abbrev pub zone_file : String → Zones → Option String
zone_file k [] = none
zone_file k ((j, v) ∷ d) = if k == j then some v else zone_file k d

unfoldable pub put_file : String → String → Zones → Zones
put_file k v [] = (k, v) ∷ []
put_file k v ((j, w) ∷ d) = if k == j then (k, v) ∷ d else (j, w) ∷ put_file k v d

unfoldable pub unlink : String → Zones → Zones
unlink k [] = []
unlink k ((j, w) ∷ d) = let rest = unlink k d in if k == j then rest else (j, w) ∷ rest

abbrev pub exists : String → Zones → Bool
exists k d = elim (zone_file k d) [ none ↦ false | some v ↦ true ]

-- The directory after a call that was to write a zone's file.
abbrev pub written_zone : Write → String → String → Zones → Zones
written_zone written k v d = put_file k v d
written_zone refused k v d = d
written_zone (torn s) k v d = put_file k s d

abbrev pub unlinked_zone : Write → String → Zones → Zones
unlinked_zone written k d = unlink k d
unlinked_zone refused k d = d
unlinked_zone (torn s) k d = d

pub zone_file-put_file :
    (k j v : String) (d : Zones)
    → zone_file k (put_file j v d) ≡ (if k == j then some v else zone_file k d)
unfolding put_file
zone_file-put_file k j v [] = refl
zone_file-put_file k j v ((i, w) ∷ d) = ground (arith, zone_file-put_file k j v d)

pub zone_file-unlink :
    (k j : String) (d : Zones) → zone_file k (unlink j d) ≡ (if k == j then none else zone_file k d)
unfolding unlink
zone_file-unlink k j [] = ground arith
zone_file-unlink k j ((i, w) ∷ d) = ground (arith, zone_file-unlink k j d)
