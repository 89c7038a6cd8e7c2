-- ===== src/Backend/Nsd/Removal.antt =====
-- `_remove_zone_from_conf` of directdnsonly/app/backends/nsd.py on the text of an include file.
use mathlib.Core.Path.{subst}
use Prim.Native.Char.{Char, code}
use Prim.Native.String.{count}
use text.Mathlib.TextLemmas.{nil-append, cons-append, append_assoc, length-append, length-cons}
use directdnsonly.Base.{
  ℕ, zero, suc, ◌≤◌, String, ◌<>◌, ◌≡◌, ◌≢◌, refl, sym, ap, ◌∙◌, true, false, not, none, some, List,
  [], ◌∷◌, ◌==◌, nat_eq, string_eq, ==_iff, Bool-cases, inl, inr, arith, keep, All,
}
use directdnsonly.Backend.Nsd.{stanza, stanzas, match_stanza, sub_stanza, without_stanza}
use directdnsonly.Backend.Nsd.Matching.{lacks, lacks-cons, IsPlain}
use directdnsonly.Backend.Nsd.Printed.{
  middle, printed, newline, stanza-printed, match_stanza-printed, match_stanza-ne,
  match_stanza_line, match_stanza_break, match_stanza_end,
}

-- The zones of a list without one of them
abbrev pub others : String → List String → List String
others k zs = keep (λ z. not (z == k)) zs

-- The substitution for the zone `k` makes `t` of `s`, on any fuel that covers the text.
abbrev Subs : String → String → String → Type 0
Subs k s t = (fuel : ℕ) → count s ≤ fuel → sub_stanza fuel k s ≡ t

module _ (k : String) where
  Subs-nil : Subs k "" ""
  unfolding sub_stanza
  Subs-nil zero h = refl
  Subs-nil (suc fuel) h = refl

  -- A character where nothing matches stays.
  Subs-cons :
      (c : Char) (s t : String)
      → match_stanza k (String.◌∷◌ c s) ≡ none
      → Subs k s t
      → Subs k (String.◌∷◌ c s) (String.◌∷◌ c t)
  unfolding sub_stanza
  Subs-cons c s t none_here rest zero h = absurd (omega (arith, length-cons c s))
  Subs-cons c s t none_here rest (suc fuel) h =
      rw (none_here, sub_stanza) (ap (String.◌∷◌ c) (rest fuel (omega (arith, length-cons c s))))

  -- What matches goes.
  Subs-some :
      (c : Char) (s r t : String)
      → match_stanza k (String.◌∷◌ c s) ≡ some r
      → count r ≤ count s
      → Subs k r t
      → Subs k (String.◌∷◌ c s) t
  unfolding sub_stanza
  Subs-some c s r t here less rest zero h = absurd (omega (arith, length-cons c s))
  Subs-some c s r t here less rest (suc fuel) h =
      rw (here, sub_stanza) (rest fuel (omega (arith, length-cons c s)))

  -- A text without a newline stays.
  Subs-append : (w s t : String) → lacks 10 w ≡ true → Subs k s t → Subs k (w <> s) (w <> t)
  Subs-append String.[] s t h rest = rw (nil-append s, nil-append t) rest
  Subs-append (String.◌∷◌ c w) s t h rest =
      let (apart, tail) = lacks-cons 10 c w h in
      rw (cons-append c w s, cons-append c w t)
        (Subs-cons c (w <> s) (w <> t) (match_stanza_line k c (w <> s) apart)
          (Subs-append w s t tail rest))

  newline-append : (s : String) → "\n" <> s ≡ String.◌∷◌ newline s
  newline-append s = cons-append newline "" s ∙ ap (String.◌∷◌ newline) (nil-append s)

  -- No stanza begins at this line's end.
  abbrev Breaks : String → Type 0
  Breaks s = match_stanza k ("\n" <> s) ≡ none

  Subs-break : (s t : String) → Breaks s → Subs k s t → Subs k ("\n" <> s) ("\n" <> t)
  Subs-break s t h rest =
      rw (newline-append s, newline-append t)
        (Subs-cons newline s t (ap (match_stanza k) (sym (newline-append s)) ∙ h) rest)

  Breaks-line : (c : Char) (a s : String) → (code c == 122) ≡ false → Breaks (String.◌∷◌ c a <> s)
  Breaks-line c a s h =
      ap (match_stanza k)
        (newline-append (String.◌∷◌ c a <> s) ∙ ap (String.◌∷◌ newline) (cons-append c a s))
      ∙ match_stanza_break k c (a <> s) h

-- The pieces of a stanza, each newline apart
abbrev spread : String → String → String → String
spread dir z s =
    "\n"
    <> ("zone:"
        <> ("\n"
            <> ("    name: \""
                <> (z
                    <> ("\""
                        <> ("\n"
                            <> ("    zonefile: \""
                                <> (dir <> ("/" <> (z <> (".db\"" <> ("\n" <> s))))))))))))

spread_pieces :
    (n a b z q c dir l e s : String)
    → (n <> (a <> (n <> b)))
        <> (z <> ((q <> (n <> c)) <> (dir <> (l <> (z <> (e <> ((q <> n) <> s)))))))
      ≡ n
        <> (a
            <> (n
                <> (b
                    <> (z <> (q <> (n <> (c <> (dir <> (l <> (z <> ((e <> q) <> (n <> s))))))))))))
spread_pieces n a b z q c dir l e s = simp append_assoc

printed-spread : (dir z s : String) → printed dir z s ≡ spread dir z s
printed-spread dir z s =
    spread_pieces "\n" "zone:" "    name: \"" z "\"" "    zonefile: \"" dir "/" ".db" s

module _ (k dir : String) (hk : lacks 34 k ≡ true) (plain_dir : IsPlain dir) where
  -- The stanza of another zone stays.
  Subs-ne :
      (z s t : String)
      → IsPlain z
      → k ≢ z
      → Breaks k s
      → Subs k s t
      → Subs k (printed dir z s) (printed dir z t)
  unfolding nat_eq
  Subs-ne z s t plain ne ends rest =
      rw (printed-spread dir z s, printed-spread dir z t)
        (Subs-break k _ _
          (ap (match_stanza k) (sym (printed-spread dir z s))
            ∙ match_stanza-ne dir z k s plain.0 hk ne)
          (Subs-append k "zone:" _ _ refl (
            Subs-break k _ _ (Breaks-line k " " "   name: \"" _ refl) (
              Subs-append k "    name: \"" _ _ refl (
                Subs-append k z _ _ plain.1 (
                  Subs-append k "\"" _ _ refl (
                    Subs-break k _ _ (Breaks-line k " " "   zonefile: \"" _ refl) (
                      Subs-append k "    zonefile: \"" _ _ refl (
                        Subs-append k dir _ _ plain_dir.1 (
                          Subs-append k "/" _ _ refl (
                            Subs-append k z _ _ plain.1 (
                              Subs-append k ".db\"" _ _ refl
                                (Subs-break k s t ends rest)))))))))))))

  abbrev body : String → String
  body z = "zone:\n    name: \"" <> (z <> (middle <> (dir <> ("/" <> (z <> ".db\"\n")))))

  stanza-body : (z s : String) → stanza dir z <> s ≡ String.◌∷◌ newline (body z <> s)
  unfolding stanza
  stanza-body z s = rw (
    cons-append newline "zone:\n    name: \"" (z <> (middle <> (dir <> ("/" <> (z <> ".db\"\n"))))),
    cons-append newline (body z) s,
  )

  -- The stanza of the zone itself goes.
  Subs-eq : (s t : String) → Subs k s t → Subs k (stanza dir k <> s) t
  Subs-eq s t rest = rw (stanza-body k s) (
      Subs-some k newline (body k <> s) s t
        (ap (match_stanza k) (sym (stanza-body k s) ∙ stanza-printed dir k s)
          ∙ match_stanza-printed dir k s plain_dir.0 hk)
        (omega (arith, length-append (body k) s)) rest)

  Breaks-stanzas : (zs : List String) → Breaks k (stanzas dir zs)
  unfolding stanzas nat_eq
  Breaks-stanzas [] = ap (match_stanza k) (newline-append k "") ∙ match_stanza_end k
  Breaks-stanzas (z ∷ zs) =
      ap (match_stanza k)
        (newline-append k _ ∙ ap (String.◌∷◌ newline) (stanza-body z (stanzas dir zs)))
      ∙ match_stanza_break k newline (body z <> stanzas dir zs) refl

  Subs-stanzas :
      (zs : List String) → All IsPlain zs → Subs k (stanzas dir zs) (stanzas dir (others k zs))
  unfolding stanzas
  Subs-stanzas [] plain = Subs-nil k
  Subs-stanzas (z ∷ zs) plain =
      let rest = Subs-stanzas zs plain.1 in
      let text = stanzas dir zs in
      let left = stanzas dir (others k zs) in
      elim (Bool-cases (z == k)) [
        | inl same ↦
            let shorter : others k (z ∷ zs) ≡ others k zs = rw same in
            subst (λ us. Subs k (stanza dir z <> text) (stanzas dir us)) (sym shorter)
              (subst (λ w. Subs k (stanza dir w <> text) left) (sym ((==_iff z k).0 same))
                (Subs-eq text left rest))
        | inr apart ↦
            let longer : others k (z ∷ zs) ≡ z ∷ others k zs = rw apart in
            let ne : k ≢ z = λ e. cc (apart, (==_iff z k).1 (sym e)) in
            subst (λ us. Subs k (stanza dir z <> text) (stanzas dir us)) (sym longer)
              (rw (stanza-printed dir z text, stanza-printed dir z left)
                (Subs-ne z text left plain.0 ne (Breaks-stanzas zs) rest))
      ]

  -- The removal of a zone from the text of a list of zones gives the text of the others.
  pub without_stanza-stanzas :
      (zs : List String)
      → All IsPlain zs
      → without_stanza k (stanzas dir zs) ≡ stanzas dir (others k zs)
  unfolding without_stanza
  without_stanza-stanzas zs plain = Subs-stanzas zs plain (count (stanzas dir zs)) (omega arith)
