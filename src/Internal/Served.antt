-- ===== src/Internal/Served.antt =====
-- The list of zones and the answers for one zone agree (directdnsonly/app/api/internal.py).
use directdnsonly.Base.{
  ℕ, String, ◌≡◌, refl, Bool, true, false, Option, none, some, List, [], ◌∷◌, map, if◌then◌else◌,
  ◌==◌, string_eq, option_eq, nat_eq, contains, arith,
}
use directdnsonly.Base.Exec.{ok}
use directdnsonly.Database.{Domain, row, IsUnique, Database, IsDatabase}
use directdnsonly.PeerSync.Zones.{Entry}
use directdnsonly.Internal.{
  entry_of, list_row, list_zones, served_zones, served_zone, Zones, all_zones, one_zone, zones,
}
use directdnsonly.PeerSync.Zones.{Response}
use directdnsonly.Base.{sym, truthy}

abbrev pub names : List Entry → List (Option String)
names = map (λ e. e.domain)

-- The row, if there is one, holds a zone.
abbrev pub holds_zone : Option Domain → Bool
holds_zone none = false
holds_zone (some r) = elim r.zone_data [ none ↦ false | some z ↦ true ]

module _ (isoformat : ℕ → String) where
  names-list_row :
      (d : String) (r : Domain) (z : Option String) (rest : List Entry)
      → contains (names (list_row isoformat r z rest)) (some d) ≡ (
          if (elim z [ none ↦ false | some _ ↦ (d == r.domain) ])
          then true
          else contains (names rest) (some d))
  unfolding entry_of
  names-list_row d r none rest = refl
  names-list_row d r (some z) rest = ground arith

  unlisted :
      (d : String) (rows : List Domain)
      → row d rows ≡ none
      → contains (names (list_zones isoformat rows)) (some d) ≡ false
  unfolding list_zones
  unlisted d [] h = refl
  unlisted d (r ∷ rows) h =
      ground (arith, unlisted d rows, names-list_row d r r.zone_data (list_zones isoformat rows))

  names-list_zones :
      (d : String) (rows : List Domain)
      → IsUnique rows
      → contains (names (list_zones isoformat rows)) (some d) ≡ holds_zone (row d rows)
  unfolding list_zones
  names-list_zones d [] u = refl
  names-list_zones d (r ∷ rows) u = ground (
    arith,
    names-list_zones d rows u.1,
    unlisted d rows,
    u.0,
    names-list_row d r r.zone_data (list_zones isoformat rows),
  )

-- A row's zone is answered with status 200 exactly if its name stands in the list.
pub served_zone-served_zones :
    {D : Database} (L : IsDatabase D) (isoformat : ℕ → String) (d : String) (t : D.Table)
    → contains (names (list_zones isoformat (D.all t))) (some d)
      ≡ ((served_zone D isoformat d t).status_code == 200)
unfolding served_zone nat_eq
served_zone-served_zones {D} L isoformat d t =
    ground (arith, names-list_zones isoformat d (D.all t) (L.all-IsUnique t), L.find-all d t)

-- Over any database, a request without a domain, or for a blank one, is answered with the list of
-- zones. A request for a domain that is not blank is answered for that domain, with status 200
-- exactly if it stands in the list.
pub zones-listed :
    {D : Database} (L : IsDatabase D) (isoformat : ℕ → String) (d : String) (t : D.Table)
    → let list : Zones =
        all_zones (record { status_code = 200; json = ok (list_zones isoformat (D.all t)) }) in
      (zones D isoformat none (some t) ≡ list)
      × (truthy d ≡ false → zones D isoformat (some d) (some t) ≡ list)
      × (truthy d ≡ true
          → (answer : Response (Option String)) × (zones D isoformat (some d) (some t)
              ≡ one_zone answer)
            × ((answer.status_code == 200)
                ≡ contains (names (list_zones isoformat (D.all t))) (some d)))
unfolding zones served_zones
zones-listed {D} L isoformat d t = (
  refl,
  (λ blank. rw blank),
  λ full. (served_zone D isoformat d t, rw full, sym (served_zone-served_zones L isoformat d t)),
)
