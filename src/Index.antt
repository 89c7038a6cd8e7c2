-- ===== src/Index.antt =====
-- directdnsonly/app/utils/__init__.py: the index of zones, kept in the `domains` table.
pub mod Ownership
pub mod Parent
use Prim.Native.Char.{Char, code}
use directdnsonly.Base.{
  String, ◌<>◌, Bool, true, false, Option, none, some, List, [], ◌∷◌, if◌then◌else◌, ◌==◌, nat_eq,
  string_eq, option_eq,
}
use directdnsonly.Base.Exec.{Exec, ok, raised, other}
use directdnsonly.Database.{Domain, Database}

abbrev push : Char → List String → List String
push c [] = String.◌∷◌ c "" ∷ []
push c (w ∷ ws) = String.◌∷◌ c w ∷ ws

-- `zone_name.split(".")`
pub split_dots : String → List String
split_dots String.[] = "" ∷ []
split_dots (String.◌∷◌ c s) =
    let words = split_dots s in if code c == 46 then "" ∷ words else push c words

-- `".".join(words)`
pub join_dots : List String → String
join_dots [] = ""
join_dots (w ∷ []) = w
join_dots (w ∷ v ∷ ws) = w <> ("." <> join_dots (v ∷ ws))

abbrev rest_of : List String → List String
rest_of [] = []
rest_of (w ∷ ws) = ws

-- The name without its first label.
unfoldable pub parent_domain : String → String
unfolding split_dots join_dots
parent_domain zone_name = join_dots (rest_of (split_dots zone_name))

-- A session's commit that raises leaves the table as it was.
abbrev pub committed : {T : Type 0} → Option T → Exec T Bool
committed none t = (raised other, t)
committed (some u) t = (ok true, u)

module _ (D : Database) where
  unfoldable pub check_zone_exists : String → D.Table → Bool
  check_zone_exists zone_name t = elim (D.find zone_name t) [ some _ ↦ true | none ↦ false ]

  unfoldable pub get_domain_record : String → D.Table → Option Domain
  get_domain_record zone_name t = D.find zone_name t

  unfoldable pub put_zone_index : String → Option String → Option String → Exec D.Table Bool
  put_zone_index zone_name host_name user_name t =
      committed
        (D.add
          (record {
            domain = zone_name;
            hostname = host_name;
            username = user_name;
            zone_data = none;
            zone_updated_at = none;
          })
          t)
        t

  unfoldable pub check_parent_domain_owner : String → D.Table → Bool
  unfolding check_zone_exists
  check_parent_domain_owner zone_name t =
      let parent = parent_domain zone_name in
      if parent == "" then false else check_zone_exists parent t

  unfoldable pub get_parent_domain_record : String → D.Table → Option Domain
  get_parent_domain_record zone_name t =
      let parent = parent_domain zone_name in if parent == "" then none else D.find parent t

  abbrev pub transfer : Option Domain → Option String → Option String → Exec D.Table Bool
  transfer none host_name user_name t = (ok true, t)
  transfer (some r) host_name user_name t =
      if r.hostname == host_name
      then (ok true, t)
      else committed (D.save (record r { hostname = host_name; username = user_name } ∷ []) t) t

  unfoldable pub update_zone_hostname : String → Option String → Option String → Exec D.Table Bool
  update_zone_hostname zone_name host_name user_name t =
      transfer (D.find zone_name t) host_name user_name t

  -- The index step of a push, as the save worker makes it.
  unfoldable pub register : String → Option String → Option String → Exec D.Table Bool
  register zone_name host_name user_name t =
      if check_zone_exists zone_name t
      then update_zone_hostname zone_name host_name user_name t
      else put_zone_index zone_name host_name user_name t
