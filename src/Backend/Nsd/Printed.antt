-- ===== src/Backend/Nsd/Printed.antt =====
-- Where the pattern of `_remove_zone_from_conf` (directdnsonly/app/backends/nsd.py) matches in the text
-- of an include file.
use Prim.Native.Char.{Char, code}
use text.Mathlib.TextLemmas.{cons-append, append_assoc}
use directdnsonly.Base.{
  String, ◌<>◌, ◌≡◌, ◌≢◌, refl, ap, ◌∙◌, true, false, none, some, ◌==◌, nat_eq, string_eq,
}
use directdnsonly.Backend.Nsd.{stanza, strip_prefix, skip_word, after_head, match_stanza}
use directdnsonly.Backend.Nsd.Matching.{
  lacks, ==_apart, strip_prefix-cancel, strip_prefix-append, strip_prefix-ne, seen, seen-true,
  skip_word-append,
}

abbrev pub head : String
head = "\nzone:\n    name: \""

abbrev pub middle : String
middle = "\"\n    zonefile: \""

-- A stanza piece by piece, with what follows it
abbrev pub printed : String → String → String → String
printed dir z s = head <> (z <> (middle <> (dir <> ("/" <> (z <> (".db" <> ("\"\n" <> s)))))))

regroup :
    (a b c d e f g h s : String)
    → (a <> (b <> (c <> (d <> (e <> (f <> (g <> h))))))) <> s
      ≡ a <> (b <> (c <> (d <> (e <> (f <> (g <> (h <> s)))))))
regroup a b c d e f g h s = simp append_assoc

pub stanza-printed : (dir z s : String) → stanza dir z <> s ≡ printed dir z s
unfolding stanza
stanza-printed dir z s = regroup head z middle dir "/" z ".db" "\"\n" s

quoted_file :
    (dir z s : String)
    → lacks 34 dir ≡ true
    → lacks 34 z ≡ true
    → skip_word false (dir <> ("/" <> (z <> (".db" <> ("\"\n" <> s))))) ≡ some s
unfolding skip_word nat_eq
quoted_file dir z s hd hz =
    let ending = "\"\n" <> s in
    let closed : skip_word true ending ≡ some s =
      rw (cons-append "\"" "\n" s) (strip_prefix-append "\n" s) in
    skip_word-append false dir ("/" <> (z <> (".db" <> ending))) hd
    ∙ skip_word-append (seen false dir) "/" (z <> (".db" <> ending)) refl
    ∙ skip_word-append true z (".db" <> ending) hz
    ∙ ap (λ b. skip_word b (".db" <> ending)) (seen-true z)
    ∙ skip_word-append true ".db" ending refl
    ∙ closed

-- The stanza of the zone matches, up to its end.
pub match_stanza-printed :
    (dir z s : String)
    → lacks 34 dir ≡ true
    → lacks 34 z ≡ true
    → match_stanza z (printed dir z s) ≡ some s
unfolding match_stanza
match_stanza-printed dir z s hd hz =
    let rest = dir <> ("/" <> (z <> (".db" <> ("\"\n" <> s)))) in
    let whole : printed dir z s ≡ (head <> (z <> middle)) <> rest = simp append_assoc in
    ap (λ t. after_head (strip_prefix (head <> (z <> middle)) t)) whole
    ∙ ap after_head (strip_prefix-append (head <> (z <> middle)) rest)
    ∙ quoted_file dir z s hd hz

-- The stanza of another zone does not.
pub match_stanza-ne :
    (dir z k s : String)
    → lacks 34 z ≡ true
    → lacks 34 k ≡ true
    → k ≢ z
    → match_stanza k (printed dir z s) ≡ none
unfolding match_stanza
match_stanza-ne dir z k s hz hk ne =
    let file = dir <> ("/" <> (z <> (".db" <> ("\"\n" <> s)))) in
    let unlike : strip_prefix (k <> middle) (z <> (middle <> file)) ≡ none =
      ap (λ t. strip_prefix (k <> middle) (z <> t)) (append_assoc "\"" "\n    zonefile: \"" file)
      ∙ strip_prefix-ne k z "\n    zonefile: \"" ("\n    zonefile: \"" <> file) hk hz ne in
    ap after_head (strip_prefix-cancel head (k <> middle) (z <> (middle <> file)) ∙ unlike)

abbrev pub newline : Char
newline = "\n"

-- Nothing matches but where a line begins that says `zone:`.
pub match_stanza_line :
    (k : String) (c : Char) (s : String)
    → (code c == 10) ≡ false
    → match_stanza k (String.◌∷◌ c s) ≡ none
unfolding match_stanza strip_prefix
match_stanza_line k c s h =
    let unlike : strip_prefix (head <> (k <> middle)) (String.◌∷◌ c s) ≡ none =
      rw (cons-append newline "zone:\n    name: \"" (k <> middle), ==_apart (code c) 10 h) in
    ap after_head unlike

pub match_stanza_break :
    (k : String) (c : Char) (s : String)
    → (code c == 122) ≡ false
    → match_stanza k (String.◌∷◌ newline (String.◌∷◌ c s)) ≡ none
unfolding match_stanza strip_prefix nat_eq
match_stanza_break k c s h =
    let unlike : strip_prefix (head <> (k <> middle)) (String.◌∷◌ newline (String.◌∷◌ c s)) ≡ none =
      rw (
        cons-append newline "zone:\n    name: \"" (k <> middle),
        cons-append "z" "one:\n    name: \"" (k <> middle),
        ==_apart (code c) 122 h,
      ) in
    ap after_head unlike

pub match_stanza_end : (k : String) → match_stanza k "\n" ≡ none
unfolding match_stanza strip_prefix nat_eq
match_stanza_end k =
    let unlike : strip_prefix (head <> (k <> middle)) "\n" ≡ none = rw (
      cons-append newline "zone:\n    name: \"" (k <> middle),
      cons-append "z" "one:\n    name: \"" (k <> middle),
    ) in
    ap after_head unlike
