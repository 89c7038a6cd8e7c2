-- ===== src/Index/Ownership.antt =====
-- What the index holds after a push of a zone: one row, owned by the host that pushed last.
use directdnsonly.Base.{
  String, ◌≡◌, refl, ◌∙◌, true, Option, none, some, [], ◌∷◌, if◌then◌else◌, ◌==◌, string_eq,
  option_eq, arith, Option-cases, inl, inr, Bool-cases, ==_iff,
}
use directdnsonly.Base.Exec.{ok}
use directdnsonly.Database.{Domain, Database, IsDatabase, IsReliable}
use directdnsonly.Database.Rows.{find-domain}
use directdnsonly.Index.{check_zone_exists, put_zone_index, update_zone_hostname, register}

-- `u` holds a row of the name that is owned by `host`, and the other rows of `t`.
abbrev pub Registered : (D : Database) → String → Option String → D.Table → D.Table → Type 0
Registered D name host t u =
    (r : Domain) × (r.hostname ≡ host)
    × ((k : String) → D.find k u ≡ (if k == name then some r else D.find k t))

module _ (D : Database) (L : IsDatabase D) (R : IsReliable D) (name : String)
    (host user : Option String) (t : D.Table) where
  put_zone_index_lem :
      D.find name t ≡ none
      → (u : D.Table) × (put_zone_index D name host user t ≡ (ok true, u))
        × Registered D name host t u
  unfolding put_zone_index
  put_zone_index_lem free =
      let new : Domain = record {
        domain = name;
        hostname = host;
        username = user;
        zone_data = none;
        zone_updated_at = none;
      } in
      elim (Option-cases (D.add new t)) [
        | inl lost ↦ absurd (R.add-free new t free lost)
        | inr (u, added) ↦ (u, rw (added, put_zone_index), (new, refl, L.find-add new t u added))
      ]

  update_zone_hostname_lem :
      (r : Domain)
      → D.find name t ≡ some r
      → (u : D.Table) × (update_zone_hostname D name host user t ≡ (ok true, u))
        × Registered D name host t u
  unfolding update_zone_hostname
  update_zone_hostname_lem r found = elim (Bool-cases (r.hostname == host)) [
    | inl same ↦ (
      t,
      rw (found, update_zone_hostname) (rw same),
      (r, (==_iff r.hostname host).0 same, λ k. ground (arith, found)),
    )
    | inr other ↦
        let new : Domain = record r { hostname = host; username = user } in
        elim (Option-cases (D.save (new ∷ []) t)) [
          | inl lost ↦ absurd (R.save_succeeds (new ∷ []) t lost)
          | inr (u, saved) ↦ (
            u,
            rw (found, update_zone_hostname) (rw (other, saved)),
            (
              new,
              refl,
              λ k. L.find-save (new ∷ []) t u saved k ∙ ground (arith, find-domain L name t found),
            ),
          )
        ]
  ]

  -- A push registers the zone, whether it is new, known, or owned by another host.
  pub register_lem :
      (u : D.Table) × (register D name host user t ≡ (ok true, u)) × Registered D name host t u
  unfolding register check_zone_exists
  register_lem = elim (Option-cases (D.find name t)) [
    | inl free ↦
        let (u, e, g) = put_zone_index_lem free in (u, rw (free, check_zone_exists, register) e, g)
    | inr (r, found) ↦
        let (u, e, g) = update_zone_hostname_lem r found in
        (u, rw (found, check_zone_exists, register) e, g)
  ]
