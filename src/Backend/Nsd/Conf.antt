-- ===== src/Backend/Nsd/Conf.antt =====
-- The include file of directdnsonly/app/backends/nsd.py as a list of zones.
use mathlib.Core.Path.{subst}
use text.Mathlib.TextLemmas.{nil-append, append-nil, append_assoc}
use directdnsonly.Base.{
  String, ◌<>◌, ◌≡◌, refl, sym, ap, ◌∙◌, Bool, true, Option, some, List, [], ◌∷◌, ◌++◌, ◌==◌,
  string_eq, ==_iff, Bool-cases, inl, inr, ◌⊎◌, arith, All, All-append,
}
use directdnsonly.Base.Exec.{ok}
use directdnsonly.Zone.{occurs}
use directdnsonly.Backend.Files.{System, Write, written, refused, torn, succeeds}
use directdnsonly.Backend.Nsd.{
  NsdBackend, name_line, stanza, stanzas, text_of, conf_after, without_stanza, ensure_zone_in_conf,
  remove_zone_from_conf, write_zone, delete_zone,
}
use directdnsonly.Backend.Nsd.Calls.{filed, unfiled, write_zone_done, delete_zone_done}
use directdnsonly.Backend.Nsd.Matching.{IsPlain}
use directdnsonly.Backend.Nsd.Removal.{others, without_stanza-stanzas}

-- The include file is the text of a list of zones.
abbrev pub Includes : List String → NsdBackend → Type 0
Includes zs b = b.nsd_conf ≡ some (stanzas b.zones_dir zs)

stanzas-append :
    (dir z : String) (zs : List String)
    → stanzas dir (zs ++ (z ∷ [])) ≡ stanzas dir zs <> stanza dir z
unfolding stanzas
stanzas-append dir z [] = append-nil (stanza dir z) ∙ sym (nil-append (stanza dir z))
stanzas-append dir z (y ∷ zs) =
    ap (λ t. stanza dir y <> t) (stanzas-append dir z zs)
    ∙ sym (append_assoc (stanza dir y) (stanzas dir zs) (stanza dir z))

others-append : (z : String) (zs : List String) → others z (zs ++ (z ∷ [])) ≡ others z zs
others-append z [] = rw ((==_iff z z).1 refl)
others-append z (y ∷ zs) = rw (others-append z zs)

conf_after_success :
    (w : Write) (old : Option String) (new : String)
    → succeeds w ≡ true
    → conf_after w old new ≡ some new
conf_after_success written old new h = refl
conf_after_success refused old new h = absurd cc
conf_after_success (torn t) old new h = absurd cc

module _ (os : System) (z : String) where
  -- After a write the list has the zone once more, or is as before.
  ensured-Includes :
      (zs : List String) (b : NsdBackend)
      → (ensure_zone_in_conf os z b).0 ≡ true
      → Includes zs b
      → let s = (ensure_zone_in_conf os z b).1 in
        (Includes zs s ⊎ Includes (zs ++ (z ∷ [])) s) × (s.zones_dir ≡ b.zones_dir)
  unfolding ensure_zone_in_conf
  ensured-Includes zs b h e = elim (Bool-cases (os.read b.calls)) [
    | inr unread ↦ absurd (ground (arith, unread, h))
    | inl read ↦ elim (Bool-cases (occurs (name_line z) (text_of b.nsd_conf))) [
      | inl there ↦ rw (read, there) (inl e, refl)
      | inr new ↦
          rw (read, new)
            (
              inr (
                  conf_after_success (os.write b.calls) b.nsd_conf
                    (text_of b.nsd_conf <> stanza b.zones_dir z) (ground (arith, read, new, h))
                  ∙ ap (λ c. some (text_of c <> stanza b.zones_dir z)) e
                  ∙ ap some (sym (stanzas-append b.zones_dir z zs))),
              refl,
            )
    ]
  ]

  removed-Includes :
      (zs : List String) (b : NsdBackend)
      → (remove_zone_from_conf os z b).0 ≡ true
      → IsPlain z
      → IsPlain b.zones_dir
      → All IsPlain zs
      → Includes zs b
      → let s = (remove_zone_from_conf os z b).1 in
        Includes (others z zs) s × (s.zones_dir ≡ b.zones_dir)
  unfolding remove_zone_from_conf
  removed-Includes zs b h plain dir all e =
      let text = stanzas b.zones_dir zs in
      let gone = without_stanza-stanzas z b.zones_dir plain.0 dir zs all in
      elim (Bool-cases (os.read b.calls)) [
        | inr unread ↦ absurd (ground (arith, unread, h, e))
        | inl read ↦ elim (Bool-cases (without_stanza z text == text)) [
          | inl same ↦
              rw (e, read, same)
                (ap some (sym ((==_iff (without_stanza z text) text).0 same) ∙ gone), refl)
          | inr apart ↦
              rw (e, read, apart)
                (
                  conf_after_success (os.write b.calls) (some text) (without_stanza z text)
                        (rw (e, read, apart) at h)
                      ∙ ap some gone,
                  refl,
                )
        ]
      ]

  delete-Includes :
      (zs : List String) (r s : NsdBackend)
      → Includes zs r
      → IsPlain z
      → IsPlain r.zones_dir
      → All IsPlain zs
      → delete_zone os z r ≡ (ok true, s)
      → Includes (others z zs) s
  delete-Includes zs r s e plain dir all deleted =
      let took = delete_zone_done os z r s deleted in
      subst (Includes (others z zs)) (ap (λ (p : Bool × NsdBackend). p.1) took)
        (removed-Includes zs (unfiled os z r) (ap (λ (p : Bool × NsdBackend). p.0) took) plain dir
          all e).0

  -- If NSD's include file is the text of a list of zones, no name of which, nor the directory, has a
  -- quotation mark or a newline, then a write of a zone and a delete of it that report success leave
  -- the text of the list without that zone, so that of the list itself if the zone was not on it.
  pub write-delete-Includes :
      (zs : List String) (d : String) (b r s : NsdBackend)
      → Includes zs b
      → IsPlain z
      → IsPlain b.zones_dir
      → All IsPlain zs
      → write_zone os z d b ≡ (ok true, r)
      → delete_zone os z r ≡ (ok true, s)
      → Includes (others z zs) s
  write-delete-Includes zs d b r s e plain dir all wrote deleted =
      let put = write_zone_done os z d b r wrote in
      let (on_list, same_dir) =
        subst (λ x. (Includes zs x ⊎ Includes (zs ++ (z ∷ [])) x) × (x.zones_dir ≡ b.zones_dir))
          (ap (λ (p : Bool × NsdBackend). p.1) put)
          (ensured-Includes zs (filed os z d b) (ap (λ (p : Bool × NsdBackend). p.0) put) e) in
      let plain_dir = subst IsPlain (sym same_dir) dir in
      elim on_list [
        | inl before ↦ delete-Includes zs r s before plain plain_dir all deleted
        | inr longer ↦
            subst (λ us. Includes us s) (others-append z zs)
              (delete-Includes (zs ++ (z ∷ [])) r s longer plain plain_dir
                (All-append IsPlain zs (z ∷ []) all (plain, tt)) deleted)
      ]
