-- ===== src/Zone/Normal.antt =====
-- What the normalisation of a zone (directdnsonly/app/utils/zone_parser.py) gives.
use mathlib.Core.Path.{subst}
use text.Mathlib.TextLemmas.{nil-append, append_assoc}
use directdnsonly.Base.{
  ℕ, String, ◌<>◌, ◌≡◌, refl, sym, ap, ◌∙◌, true, Option, some, List, if◌then◌else◌, Bool-cases,
  Option-cases, inl, inr,
}
use directdnsonly.Base.Exec.{ok}
use directdnsonly.Zone.{occurs, with_dot, with_origin, with_ttl, validate_and_normalize_zone}
use directdnsonly.Zone.Occurs.{occurs-prefix, occurs-append}

-- A directive holds, and the text ends as it did.
abbrev Headed : String → String → String → Type 0
Headed p z r = (occurs p r ≡ true) × (a : String) × (r ≡ a <> z)

-- A directive that begins with its name, put in front of a text that lacks it
directive-Headed : (p q z : String) → Headed p z (if occurs p z then z else (p <> q) <> z)
directive-Headed p q z = elim (Bool-cases (occurs p z)) [
  | inl there ↦ rw there (there, "", sym (nil-append z))
  | inr missing ↦
      rw missing (ap (occurs p) (append_assoc p q z) ∙ occurs-prefix p (q <> z), p <> q, refl)
]

origin_line :
    (o z : String) → ("$ORIGIN" <> (" " <> (o <> "\n"))) <> z ≡ "$ORIGIN " <> (o <> ("\n" <> z))
origin_line o z =
    append_assoc "$ORIGIN" (" " <> (o <> "\n")) z
    ∙ ap (λ t. "$ORIGIN" <> t) (append_assoc " " (o <> "\n") z)
    ∙ ap (λ t. "$ORIGIN" <> (" " <> t)) (append_assoc o "\n" z)
    ∙ sym (append_assoc "$ORIGIN" " " (o <> ("\n" <> z)))

with_origin-Headed : (z o : String) → Headed "$ORIGIN" z (with_origin z o)
unfolding with_origin
with_origin-Headed z o =
    subst (λ t. Headed "$ORIGIN" z (if occurs "$ORIGIN" z then z else t)) (origin_line o z)
      (directive-Headed "$ORIGIN" (" " <> (o <> "\n")) z)

with_ttl-Headed : (z : String) → Headed "$TTL" z (with_ttl z)
unfolding with_ttl
with_ttl-Headed z = directive-Headed "$TTL" " 300\n" z

-- A text that both directives stand in is left as it is.
normal_kept :
    (r o : String)
    → occurs "$ORIGIN" r ≡ true
    → occurs "$TTL" r ≡ true
    → with_ttl (with_origin r o) ≡ r
unfolding with_origin with_ttl
normal_kept r o h k = rw (h, k) refl

module _ (from_text : String → String → Option (List ℕ)) where
  validated :
      (z d r : String)
      → validate_and_normalize_zone from_text z d ≡ ok r
      → (with_ttl (with_origin z (with_dot d)) ≡ r)
        × (cs : List ℕ) × (from_text r (with_dot d) ≡ some cs)
  unfolding validate_and_normalize_zone
  validated z d r h =
      elim (Option-cases (from_text (with_ttl (with_origin z (with_dot d))) (with_dot d))) [
        | inl bad ↦ absurd (cc (rw (bad, validate_and_normalize_zone) at h))
        | inr (cs, good) ↦
            let same : with_ttl (with_origin z (with_dot d)) ≡ r =
              cc (rw (good, validate_and_normalize_zone) at h) in
            (same, cs, cc (good, same))
      ]

  -- A zone that is accepted comes back with an $ORIGIN and a $TTL, at its end what was given, and is
  -- accepted again for the same domain, which then leaves it as it is.
  pub validate_and_normalize_zone_idem :
      (z d r : String)
      → validate_and_normalize_zone from_text z d ≡ ok r
      → (occurs "$ORIGIN" r ≡ true)
        × (occurs "$TTL" r ≡ true)
        × ((a : String) × (r ≡ a <> z))
        × (validate_and_normalize_zone from_text r d ≡ ok r)
  unfolding validate_and_normalize_zone
  validate_and_normalize_zone_idem z d r h =
      let (same, cs, good) = validated z d r h in
      let o = with_dot d in
      let (origin, a, e) = with_origin-Headed z o in
      let (ttl, b, e') = with_ttl-Headed (with_origin z o) in
      let both : occurs "$ORIGIN" (with_ttl (with_origin z o)) ≡ true =
        ap (occurs "$ORIGIN") e' ∙ occurs-append "$ORIGIN" b (with_origin z o) origin in
      let kept =
        normal_kept r o (ap (occurs "$ORIGIN") (sym same) ∙ both)
          (ap (occurs "$TTL") (sym same) ∙ ttl) in
      (
        ap (occurs "$ORIGIN") (sym same) ∙ both,
        ap (occurs "$TTL") (sym same) ∙ ttl,
        (b <> a, sym same ∙ e' ∙ ap (λ t. b <> t) e ∙ sym (append_assoc b a z)),
        rw (kept, good, validate_and_normalize_zone) (ap ok kept),
      )
