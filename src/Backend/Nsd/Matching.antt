-- ===== src/Backend/Nsd/Matching.antt =====
-- The pattern of `_remove_zone_from_conf` (directdnsonly/app/backends/nsd.py) at the text of a stanza.
use Prim.Native.Char.{Char, code}
use mathlib.Core.Path.{ap₂}
use text.Mathlib.TextEquality.{Char-path}
use text.Mathlib.TextLemmas.{nil-append, cons-append}
use directdnsonly.Base.{
  ℕ, String, ◌<>◌, ◌≡◌, ◌≢◌, refl, sym, ◌∙◌, Bool, true, false, not, ◌&&◌, none, some, ◌==◌, nat_eq,
  ==_iff, Bool-cases, inl, inr, arith,
}
use directdnsonly.Backend.Nsd.{strip_prefix, skip_word}

-- The text has no character of the code.
abbrev pub lacks : ℕ → String → Bool
lacks k String.[] = true
lacks k (String.◌∷◌ c s) = not (code c == k) && lacks k s

-- No quotation mark and no newline stands in a text.
abbrev pub IsPlain : String → Type 0
IsPlain s = (lacks 34 s ≡ true) × (lacks 10 s ≡ true)

pub lacks-cons :
    (k : ℕ) (c : Char) (s : String)
    → lacks k (String.◌∷◌ c s) ≡ true
    → ((code c == k) ≡ false) × (lacks k s ≡ true)
lacks-cons k c s h = elim (Bool-cases (code c == k)) [
  | inl same ↦ absurd (ground (arith, h, same))
  | inr apart ↦ (apart, ground (arith, h, apart))
]

pub ==_apart : (a b : ℕ) → (a == b) ≡ false → (b == a) ≡ false
==_apart a b h = elim (Bool-cases (b == a)) [
  | inr apart ↦ apart
  | inl same ↦ absurd (cc (h, (==_iff a b).1 (sym ((==_iff b a).0 same))))
]

pub strip_prefix-cancel : (a p s : String) → strip_prefix (a <> p) (a <> s) ≡ strip_prefix p s
unfolding strip_prefix
strip_prefix-cancel String.[] p s = rw (nil-append p, nil-append s)
strip_prefix-cancel (String.◌∷◌ c a) p s =
    rw (cons-append c a p, cons-append c a s) (ground (arith, strip_prefix-cancel a p s))

pub strip_prefix-append : (a s : String) → strip_prefix a (a <> s) ≡ some s
unfolding strip_prefix
strip_prefix-append String.[] s = rw nil-append
strip_prefix-append (String.◌∷◌ c a) s = rw cons-append (ground (arith, strip_prefix-append a s))

abbrev quote : Char
quote = "\""

quote-append : (s : String) → "\"" <> s ≡ String.◌∷◌ quote s
quote-append s = cons-append quote "" s ∙ rw nil-append

-- Quoted words that differ differ before the end of the shorter.
pub strip_prefix-ne :
    (a b p s : String)
    → lacks 34 a ≡ true
    → lacks 34 b ≡ true
    → a ≢ b
    → strip_prefix (a <> ("\"" <> p)) (b <> ("\"" <> s)) ≡ none
unfolding strip_prefix
strip_prefix-ne String.[] String.[] p s ha hb ne = absurd (ne refl)
strip_prefix-ne String.[] (String.◌∷◌ d b) p s ha hb ne =
    rw (nil-append ("\"" <> p), cons-append d b ("\"" <> s), quote-append p)
      (rw ((==_apart (code d) 34 (lacks-cons 34 d b hb).0)))
strip_prefix-ne (String.◌∷◌ c a) String.[] p s ha hb ne =
    rw (nil-append ("\"" <> s), cons-append c a ("\"" <> p), quote-append s)
      (rw (lacks-cons 34 c a ha).0)
strip_prefix-ne (String.◌∷◌ c a) (String.◌∷◌ d b) p s ha hb ne =
    rw (cons-append c a ("\"" <> p), cons-append d b ("\"" <> s))
      (elim (Bool-cases (code c == code d)) [
        | inr apart ↦ rw apart
        | inl same ↦ rw same (
            strip_prefix-ne a b p s (lacks-cons 34 c a ha).1 (lacks-cons 34 d b hb).1 (λ e.
              ne (
                ap₂ (λ x y. String.◌∷◌ x y) (Char-path c d ((==_iff (code c) (code d)).0 same)) e)))
      ])

abbrev pub seen : Bool → String → Bool
seen b String.[] = b
seen b (String.◌∷◌ c s) = true

pub seen-true : (w : String) → seen true w ≡ true
seen-true String.[] = refl
seen-true (String.◌∷◌ c w) = refl

pub skip_word-append :
    (b : Bool) (w s : String) → lacks 34 w ≡ true → skip_word b (w <> s) ≡ skip_word (seen b w) s
unfolding skip_word
skip_word-append b String.[] s h = rw nil-append
skip_word-append b (String.◌∷◌ c w) s h =
    let (apart, rest) = lacks-cons 34 c w h in
    rw (cons-append c w s, apart) (skip_word-append true w s rest ∙ rw seen-true)
