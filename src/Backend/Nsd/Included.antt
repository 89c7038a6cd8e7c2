-- ===== src/Backend/Nsd/Included.antt =====
-- The zones that NSD's include file names.
use text.Mathlib.TextLemmas.{append_assoc}
use directdnsonly.Base.{String, Option, ◌<>◌, ◌≡◌, ap, ◌∙◌, Bool, true, Bool-cases, inl, inr, arith}
use directdnsonly.Base.Exec.{ok}
use mathlib.Core.Path.{subst}
use directdnsonly.Zone.{occurs}
use directdnsonly.Zone.Occurs.{occurs-prefix, occurs-append}
use directdnsonly.Backend.Files.{zone_write, System, Write, written, refused, torn, succeeds}
use directdnsonly.Backend.Nsd.Calls.{filed, write_zone_done}
use directdnsonly.Backend.Nsd.{
  NsdBackend, name_line, stanza, text_of, conf_after, ensure_zone_in_conf, write_zone,
}

regroup :
    (a n z q r t : String) → (a <> n) <> (z <> ((q <> r) <> t)) ≡ a <> ((n <> (z <> q)) <> (r <> t))
regroup a n z q r t = simp append_assoc

occurs-stanza : (dir zone : String) → occurs (name_line zone) (stanza dir zone) ≡ true
unfolding name_line stanza
occurs-stanza dir zone =
    let file : String = dir <> ("/" <> (zone <> ".db\"\n")) in
    ap (occurs (name_line zone))
      (regroup "\nzone:\n    " "name: \"" zone "\"" "\n    zonefile: \"" file)
    ∙ occurs-append (name_line zone) "\nzone:\n    "
        (name_line zone <> ("\n    zonefile: \"" <> file))
        (occurs-prefix (name_line zone) ("\n    zonefile: \"" <> file))

-- The include file names the zone.
abbrev pub Names : String → NsdBackend → Type 0
Names zone b = occurs (name_line zone) (text_of b.nsd_conf) ≡ true

module _ (os : System) where
  ensured :
      (zone : String) (b : NsdBackend)
      → (ensure_zone_in_conf os zone b).0 ≡ true
      → Names zone (ensure_zone_in_conf os zone b).1
  unfolding ensure_zone_in_conf
  ensured zone b h = elim (Bool-cases (os.read b.calls)) [
    | inr unread ↦ absurd (ground (arith, unread, h))
    | inl read ↦ elim (Bool-cases (occurs (name_line zone) (text_of b.nsd_conf))) [
      | inl there ↦ rw (read, there) there
      | inr new ↦
          rw (read, new)
            (appended (os.write b.calls) (text_of b.nsd_conf) b.nsd_conf
              (ground (arith, read, new, h)))
    ]
  ]
    where
      appended :
          (w : Write) (content : String) (old : Option String)
          → succeeds w ≡ true
          → occurs
              (name_line zone)
              (text_of (conf_after w old (content <> stanza b.zones_dir zone)))
            ≡ true
      appended written content old h =
          occurs-append (name_line zone) content (stanza b.zones_dir zone)
            (occurs-stanza b.zones_dir zone)
      appended refused content old h = absurd cc
      appended (torn s) content old h = absurd cc

  -- Nothing is to be done where the file names the zone.
  ensured_again :
      (zone : String) (b : NsdBackend) → Names zone b → (ensure_zone_in_conf os zone b).1 ≡ b
  unfolding ensure_zone_in_conf
  ensured_again zone b named = elim (Bool-cases (os.read b.calls)) [
    | inl e ↦ rw (named, e)
    | inr e ↦ rw e
  ]

  -- A write of a zone that reports success leaves an include file that names the zone, and every
  -- later write of the zone, whatever it comes to, leaves that file as it is.
  pub write_zone-Names :
      (zone d d' : String) (b s : NsdBackend)
      → write_zone os zone d b ≡ (ok true, s)
      → Names zone s × ((write_zone os zone d' s).1.nsd_conf ≡ s.nsd_conf)
  unfolding write_zone
  write_zone-Names zone d d' b s h =
      let done = write_zone_done os zone d b s h in
      let named =
        subst (Names zone) (ap (λ (p : Bool × NsdBackend). p.1) done)
          (ensured zone (filed os zone d b) (ap (λ (p : Bool × NsdBackend). p.0) done)) in
      (
        named,
        elim (Bool-cases (succeeds (zone_write os zone s.calls))) [
          | inl e ↦ rw (e, ensured_again zone (filed os zone d' s) named)
          | inr e ↦ rw e
        ],
      )
