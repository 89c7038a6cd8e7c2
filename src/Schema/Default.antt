-- ===== src/Schema/Default.antt =====
-- Which database the calls of `connect` of directdnsonly/app/db/__init__.py reach.
use Prim.Native.Char.{Char, code}
use text.Mathlib.TextLemmas.{cons-append}
use directdnsonly.Base.{
  ℕ, String, ◌<>◌, ◌≡◌, ◌≢◌, sym, ap, ◌∙◌, Option, none, some, inl, inr, Option-cases, string_eq,
  arith,
}
use directdnsonly.Base.Exec.{Result, ok}
use directdnsonly.Schema.{Datastore, mysql_url, sqlite_url, connect, connect_default}

-- The code of a text's first character
abbrev first : String → ℕ
first String.[] = 0
first (String.◌∷◌ c s) = code c

first-url :
    (c : Char) (a rest u : String)
    → ◌≡◌ {A = Result String} (ok (String.◌∷◌ c a <> rest)) (ok u)
    → first u ≡ code c
first-url c a rest u h =
    let same : String.◌∷◌ c a <> rest ≡ u = cc (h) in ap first (sym same ∙ cons-append c a rest)

first-mysql_url : (s : Datastore) (u : String) → mysql_url s ≡ ok u → first u ≡ 109
first-mysql_url s u h = elim (Option-cases s.user) [
  | inl e ↦ cc (rw e at h)
  | inr (user, e) ↦ elim (Option-cases s.name) [
    | inl f ↦ cc (rw (e, f) at h)
    | inr (name, f) ↦ elim (Option-cases s.pass) [
      | inl g ↦ cc (rw (e, f, g) at h)
      | inr (pass, g) ↦ elim (Option-cases s.host) [
        | inl k ↦ cc (rw (e, f, g, k) at h)
        | inr (host, k) ↦
            let rest =
              user <> (":" <> (pass <> ("@" <> (host <> (":" <> (s.port <> ("/" <> name))))))) in
            first-url "m" "ysql+pymysql://" rest u (rw (e, f, g, k) at h)
      ]
    ]
  ]
]

first-sqlite_url : (o : Option String) (u : String) → sqlite_url o ≡ ok u → first u ≡ 115
first-sqlite_url none u h = cc
first-sqlite_url (some path) u h = first-url "s" "qlite:///" path u h

-- Where the settings give a URL for the type mysql and one for a call without an argument, the two
-- differ: with a datastore of type mysql the start of the program connects to one database, and
-- every call that leaves the type out to another.
pub connect-ne-connect_default :
    (s : Datastore) (u v : String) → connect "mysql" s ≡ ok u → connect_default s ≡ ok v → u ≢ v
unfolding connect connect_default string_eq
connect-ne-connect_default s u v h k same =
    absurd (omega (arith, first-mysql_url s u h, first-sqlite_url s.db_location v k, ap first same))
