-- ===== src/Base/Text.antt =====
-- Python's `strip`, `lower` and `isdigit` on ASCII text.
use Prim.Native.Char.{Char, code}
use Prim.Native.String.{String}
use mathlib.Core.Bool.{Bool, true, false, ◌&&◌, ◌||◌}
use directdnsonly.Base.Equality.{if◌then◌else◌, ◌==◌, nat_eq, leb}

abbrev is_space : Char → Bool
is_space c =
    code c == 32 || (leb 9 (code c) && leb (code c) 13) || (leb 28 (code c) && leb (code c) 31)

lstrip : (Char → Bool) → String → String
lstrip drop String.[] = ""
lstrip drop (String.◌∷◌ c s) = let rest = lstrip drop s in if drop c then rest else String.◌∷◌ c s

abbrev cons_stripped : Bool → Char → String → String
cons_stripped dropped c String.[] = if dropped then "" else String.◌∷◌ c ""
cons_stripped dropped c (String.◌∷◌ d s) = String.◌∷◌ c (String.◌∷◌ d s)

rstrip : (Char → Bool) → String → String
rstrip drop String.[] = ""
rstrip drop (String.◌∷◌ c s) = cons_stripped (drop c) c (rstrip drop s)

-- `s.strip()`
unfoldable pub strip : String → String
unfolding lstrip rstrip
strip s = rstrip is_space (lstrip is_space s)

-- `s.strip("&")`
unfoldable pub strip_ampersands : String → String
unfolding lstrip rstrip
strip_ampersands s = rstrip (λ c. code c == 38) (lstrip (λ c. code c == 38) s)

-- The character that stands in the second text where the first one has `c`.
swap : Char → String → String → Char
swap c String.[] lower = c
swap c (String.◌∷◌ u upper) String.[] = c
swap c (String.◌∷◌ u upper) (String.◌∷◌ l lower) =
    let rest = swap c upper lower in if code c == code u then l else rest

-- `s.lower()`
unfoldable pub lower : String → String
unfolding swap
lower String.[] = ""
lower (String.◌∷◌ c s) =
    String.◌∷◌ (swap c "ABCDEFGHIJKLMNOPQRSTUVWXYZ" "abcdefghijklmnopqrstuvwxyz") (lower s)

-- `s.upper()`
unfoldable pub upper : String → String
unfolding swap
upper String.[] = ""
upper (String.◌∷◌ c s) =
    String.◌∷◌ (swap c "abcdefghijklmnopqrstuvwxyz" "ABCDEFGHIJKLMNOPQRSTUVWXYZ") (upper s)

-- Every character of a text that is not empty is a digit.
all_digits : String → Bool
all_digits String.[] = true
all_digits (String.◌∷◌ c s) = (leb 48 (code c) && leb (code c) 57) && all_digits s

-- `s.isdigit()`
unfoldable pub is_digit : String → Bool
unfolding all_digits
is_digit String.[] = false
is_digit (String.◌∷◌ c s) = all_digits (String.◌∷◌ c s)

-- `s.replace("\n", "&")`
unfoldable pub join_lines : String → String
join_lines String.[] = ""
join_lines (String.◌∷◌ c s) =
    let rest = join_lines s in if code c == 10 then String.◌∷◌ "&" rest else String.◌∷◌ c rest
