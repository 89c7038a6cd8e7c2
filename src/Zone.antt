-- ===== src/Zone.antt =====
-- directdnsonly/app/utils/zone_parser.py. The parser of dnspython is a parameter, `from_text`: the
-- classes of the records of a zone, in order, or `none` where it raises a `DNSException`.
pub mod Occurs
pub mod Normal
use Prim.Native.Char.{code}
use text.Mathlib.Text.{starts_with}
use directdnsonly.Base.{
  ℕ, ◌+◌, String, ◌<>◌, Bool, false, ◌||◌, Option, none, some, List, [], ◌∷◌, if◌then◌else◌, ◌==◌,
  nat_eq,
}
use directdnsonly.Base.Exec.{Result, ok, raised, value_error}

-- `s.endswith(".")`
pub ends_with_dot : String → Bool
ends_with_dot String.[] = false
ends_with_dot (String.◌∷◌ c String.[]) = code c == 46
ends_with_dot (String.◌∷◌ c (String.◌∷◌ d s)) = ends_with_dot (String.◌∷◌ d s)

-- `pattern in s`
unfoldable pub occurs : String → String → Bool
occurs pattern String.[] = starts_with "" pattern
occurs pattern (String.◌∷◌ c s) = starts_with (String.◌∷◌ c s) pattern || occurs pattern s

pub with_dot : String → String
with_dot domain_name = if ends_with_dot domain_name then domain_name else domain_name <> "."

pub with_origin : String → String → String
with_origin zone_data domain_name =
    if occurs "$ORIGIN" zone_data then zone_data else "$ORIGIN " <> domain_name <> "\n" <> zone_data

pub with_ttl : String → String
with_ttl zone_data = if occurs "$TTL" zone_data then zone_data else "$TTL 300\n" <> zone_data

-- The class IN
abbrev class_in : ℕ
class_in = 1

pub count_in : List ℕ → ℕ
count_in [] = 0
count_in (c ∷ cs) = if c == class_in then count_in cs + 1 else count_in cs

module _ (from_text : String → String → Option (List ℕ)) where
  unfoldable pub validate_and_normalize_zone : String → String → Result String
  unfolding with_dot with_origin with_ttl ends_with_dot occurs
  validate_and_normalize_zone zone_data domain_name =
      let origin = with_dot domain_name in
      let normalized = with_ttl (with_origin zone_data origin) in
      elim (from_text normalized origin) [ some _ ↦ ok normalized | none ↦ raised value_error ]

  -- `none` is the -1 of the source.
  unfoldable pub count_zone_records : String → String → Option ℕ
  unfolding with_dot count_in ends_with_dot
  count_zone_records zone_data domain_name = elim (from_text zone_data (with_dot domain_name)) [
    | some classes ↦ some (count_in classes)
    | none ↦ none
  ]
