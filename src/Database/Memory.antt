-- ===== src/Database/Memory.antt =====
-- A table kept as a list of rows meets the assumptions on the database.
use mathlib.Core.Option.{some-injective}
use directdnsonly.Base.{
  String, ◌≡◌, refl, ap, sym, Option, none, some, List, [], ◌∷◌, if◌then◌else◌, ◌==◌, string_eq,
  arith,
}
use directdnsonly.Database.{Domain, row, or_row, IsUnique, Database, IsDatabase, IsReliable}

-- Rows with distinct names.
abbrev pub Rows : Type 0
Rows = (ds : List Domain) × IsUnique ds

unfoldable pub put_row : Domain → List Domain → List Domain
put_row d [] = d ∷ []
put_row d (e ∷ ds) = if d.domain == e.domain then d ∷ ds else e ∷ put_row d ds

unfoldable pub drop_row : String → List Domain → List Domain
drop_row k [] = []
drop_row k (e ∷ ds) = let rest = drop_row k ds in if k == e.domain then rest else e ∷ rest

pub row-put_row :
    (k : String) (d : Domain) (ds : List Domain)
    → row k (put_row d ds) ≡ (if k == d.domain then some d else row k ds)
unfolding put_row
row-put_row k d [] = refl
row-put_row k d (e ∷ ds) = ground (arith, row-put_row k d ds)

pub row-drop_row :
    (k j : String) (ds : List Domain) → row k (drop_row j ds) ≡ (if k == j then none else row k ds)
unfolding drop_row
row-drop_row k j [] = ground arith
row-drop_row k j (e ∷ ds) = ground (arith, row-drop_row k j ds)

pub put_row-IsUnique : (d : Domain) (ds : List Domain) → IsUnique ds → IsUnique (put_row d ds)
unfolding put_row
put_row-IsUnique d [] u = (refl, tt)
put_row-IsUnique d (e ∷ ds) u = ground (arith, put_row-IsUnique d ds u.1, row-put_row e.domain d ds)

pub drop_row-IsUnique : (k : String) (ds : List Domain) → IsUnique ds → IsUnique (drop_row k ds)
unfolding drop_row
drop_row-IsUnique k [] u = tt
drop_row-IsUnique k (e ∷ ds) u =
    ground (arith, drop_row-IsUnique k ds u.1, row-drop_row e.domain k ds)

unfoldable pub put_rows : List Domain → List Domain → List Domain
put_rows [] ds = ds
put_rows (d ∷ new) ds = put_row d (put_rows new ds)

pub put_rows-IsUnique : (new ds : List Domain) → IsUnique ds → IsUnique (put_rows new ds)
unfolding put_rows
put_rows-IsUnique [] ds u = u
put_rows-IsUnique (d ∷ new) ds u = put_row-IsUnique d (put_rows new ds) (put_rows-IsUnique new ds u)

pub row-put_rows :
    (k : String) (new ds : List Domain) → row k (put_rows new ds) ≡ or_row (row k new) (row k ds)
unfolding put_rows
row-put_rows k [] ds = refl
row-put_rows k (d ∷ new) ds =
    ground (arith, row-put_row k d (put_rows new ds), row-put_rows k new ds)

unfoldable pub memory : Database
unfolding put_row put_rows drop_row
memory = record {
  Table = Rows;
  find = λ k t. row k t.0;
  all = λ t. t.0;
  add = λ d t. elim (row d.domain t.0) [
    | none ↦ some (put_row d t.0, put_row-IsUnique d t.0 t.1)
    | some _ ↦ none
  ];
  save = λ ds t. some (put_rows ds t.0, put_rows-IsUnique ds t.0 t.1);
  remove = λ k t. some (drop_row k t.0, drop_row-IsUnique k t.0 t.1);
}

abbrev row_in : String → Option Rows → Option Domain
row_in k none = none
row_in k (some t) = row k t.0

pub memory-IsDatabase : IsDatabase memory
unfolding memory
memory-IsDatabase = record {
  find-all = λ k t. refl;
  all-IsUnique = λ t. t.1;
  find-add = λ d t u h k.
      ground (arith, row-put_row k d t.0, ap {A = Option Rows} {B = Option Domain} (row_in k) h);
  add_taken = λ d t h. ground arith;
  find-save = λ ds t u h k.
      rw (← row-put_rows k ds t.0) (ap (λ (v : Rows). row k v.0) (sym (some-injective _ _ h)));
  find-remove = λ j t u h k.
      rw (← row-drop_row k j t.0) (ap (λ (v : Rows). row k v.0) (sym (some-injective _ _ h)));
}

pub memory-IsReliable : IsReliable memory
unfolding memory
memory-IsReliable = record {
  add-free = λ d t h. ground arith;
  save_succeeds = λ ds t h. cc;
  remove_succeeds = λ j t h. cc;
}
