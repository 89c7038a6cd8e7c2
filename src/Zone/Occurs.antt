-- ===== src/Zone/Occurs.antt =====
-- Laws of `pattern in text`.
use text.Mathlib.Text.{starts_with}
use text.Mathlib.TextLemmas.{nil-append, cons-append}
use text.Mathlib.TextPositions.{starts_with-append}
use directdnsonly.Base.{String, ◌<>◌, ◌≡◌, true, arith}
use directdnsonly.Zone.{occurs}

occurs-of-starts_with : (p s : String) → starts_with s p ≡ true → occurs p s ≡ true
unfolding occurs
occurs-of-starts_with p String.[] h = h
occurs-of-starts_with p (String.◌∷◌ c s) h = rw h

-- A text holds what it begins with.
pub occurs-prefix : (p s : String) → occurs p (p <> s) ≡ true
occurs-prefix p s = occurs-of-starts_with p (p <> s) (starts_with-append p s)

-- What a text holds, a longer text holds too.
pub occurs-append : (p a s : String) → occurs p s ≡ true → occurs p (a <> s) ≡ true
unfolding occurs
occurs-append p String.[] s h = rw nil-append h
occurs-append p (String.◌∷◌ c a) s h = rw cons-append (ground (arith, occurs-append p a s h))
