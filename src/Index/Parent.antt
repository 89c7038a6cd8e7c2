-- ===== src/Index/Parent.antt =====
-- The name of the parent of a zone (directdnsonly/app/utils/__init__.py), read off the text.
use Prim.Native.Char.{Char, code}
use mathlib.Core.Path.{ap₂}
use text.Mathlib.TextEquality.{Char-path}
use text.Mathlib.TextLemmas.{nil-append, cons-append}
use directdnsonly.Base.{
  String, Bool, ◌<>◌, ◌≡◌, refl, sym, ap, ◌∙◌, true, false, List, [], ◌∷◌, if◌then◌else◌, ◌==◌,
  ==_iff, nat_eq, Bool-cases, inl, inr,
}
use directdnsonly.Index.{push, rest_of, split_dots, join_dots, parent_domain}

-- What stands behind the first dot, or nothing
abbrev pub behind_dot : String → String
behind_dot String.[] = ""
behind_dot (String.◌∷◌ c s) = if code c == 46 then s else behind_dot s

abbrev dot : Char
dot = "."

-- There is a word at least.
data Words : List String → Type 0 where
  words : (w : String) (ws : List String) → Words (w ∷ ws)

split_dots-Words : (s : String) → Words (split_dots s)
unfolding split_dots
split_dots-Words String.[] = words "" []
split_dots-Words (String.◌∷◌ c s) = go (code c == 46) (split_dots s) (split_dots-Words s)
  where
    go : (b : Bool) (ws : List String) → Words ws → Words (if b then "" ∷ ws else push c ws)
    go true ws h = words "" ws
    go false _ (words w ws) = words (String.◌∷◌ c w) ws

join_dots-push :
    (c : Char) (ws : List String) → Words ws → join_dots (push c ws) ≡ String.◌∷◌ c (join_dots ws)
unfolding join_dots
join_dots-push c _ (words w []) = refl
join_dots-push c _ (words w (v ∷ ws)) = cons-append c w ("." <> join_dots (v ∷ ws))

join_dots-blank :
    (ws : List String) → Words ws → join_dots ("" ∷ ws) ≡ String.◌∷◌ dot (join_dots ws)
unfolding join_dots
join_dots-blank _ (words w ws) =
    nil-append ("." <> join_dots (w ∷ ws))
    ∙ cons-append dot "" (join_dots (w ∷ ws))
    ∙ ap (String.◌∷◌ dot) (nil-append (join_dots (w ∷ ws)))

join_dots-split_dots : (s : String) → join_dots (split_dots s) ≡ s
unfolding join_dots split_dots
join_dots-split_dots String.[] = refl
join_dots-split_dots (String.◌∷◌ c s) = elim (Bool-cases (code c == 46)) [
  | inl same ↦
      rw (same, split_dots)
        (join_dots-blank (split_dots s) (split_dots-Words s)
          ∙ ap₂ String.◌∷◌ (Char-path dot c (sym ((==_iff (code c) 46).0 same)))
              (join_dots-split_dots s))
  | inr other ↦
      rw (other, split_dots)
        (join_dots-push c (split_dots s) (split_dots-Words s)
          ∙ ap (String.◌∷◌ c) (join_dots-split_dots s))
]

rest_of-push : (c : Char) (ws : List String) → Words ws → rest_of (push c ws) ≡ rest_of ws
rest_of-push c _ (words w ws) = refl

pub parent_domain_lem : (d : String) → parent_domain d ≡ behind_dot d
unfolding parent_domain split_dots join_dots
parent_domain_lem String.[] = refl
parent_domain_lem (String.◌∷◌ c s) = elim (Bool-cases (code c == 46)) [
  | inl same ↦ rw (same, split_dots, parent_domain) (join_dots-split_dots s)
  | inr other ↦
      rw (other, split_dots, parent_domain)
        (ap join_dots (rest_of-push c (split_dots s) (split_dots-Words s)) ∙ parent_domain_lem s)
]
