-- ===== src/Database/Rows.antt =====
-- Consequences of the assumptions on the database.
use directdnsonly.Base.{
  String, ◌≡◌, ◌∙◌, sym, true, some, List, [], ◌∷◌, string_eq, contains, map, arith,
}
use directdnsonly.Database.{Domain, row, Database, IsDatabase}

pub row-domain : (k : String) (ds : List Domain) (r : Domain) → row k ds ≡ some r → r.domain ≡ k
row-domain k [] r h = cc
row-domain k (d ∷ ds) r h = ground (arith, row-domain k ds r)

contains-row :
    (k : String) (ds : List Domain) (r : Domain)
    → row k ds ≡ some r
    → contains (map (λ d. d.domain) ds) k ≡ true
contains-row k [] r h = cc
contains-row k (d ∷ ds) r h = ground (arith, contains-row k ds r)

module _ {D : Database} (L : IsDatabase D) (k : String) (t : D.Table) {r : Domain}
    (found : D.find k t ≡ some r) where
  -- The row that is found has the name that was asked for.
  pub find-domain : r.domain ≡ k
  find-domain = row-domain k (D.all t) r (sym (L.find-all k t) ∙ found)

  pub contains-all : contains (map (λ d. d.domain) (D.all t)) k ≡ true
  contains-all = contains-row k (D.all t) r (sym (L.find-all k t) ∙ found)
