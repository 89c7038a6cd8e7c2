-- ===== src/Database.antt =====
-- directdnsonly/app/db: the `domains` table (models/__init__.py) behind SQLAlchemy, which is not
-- part of the repository. `find` is `select(Domain).filter_by(domain=d)` with
-- `scalar_one_or_none()`, `all` is `select(Domain)` with `scalars().all()`. `add`, `save` and
-- `remove` end with `commit()`: `none` is a commit that raises. The program reads and writes whole
-- rows by name, so the integer primary key is left out.
pub mod Memory
pub mod Rows
use directdnsonly.Base.{
  ℕ, String, ◌≡◌, ◌≢◌, Bool, Option, none, some, List, [], ◌∷◌, if◌then◌else◌, ◌==◌, string_eq,
}

pub record Domain : Type 0 where
  pub domain : String
  pub hostname : Option String
  pub username : Option String
  pub zone_data : Option String
  pub zone_updated_at : Option ℕ

-- The row of a name in a list of rows.
abbrev pub row : String → List Domain → Option Domain
row k [] = none
row k (d ∷ ds) = if k == d.domain then some d else row k ds

-- The row of a name as a session sees it that has flushed `ds` and not committed them.
abbrev pub or_row : Option Domain → Option Domain → Option Domain
or_row none r = r
or_row (some d) r = some d

abbrev pub IsUnique : List Domain → Type 0
IsUnique [] = Unit {0}
IsUnique (d ∷ ds) = (row d.domain ds ≡ none) × IsUnique ds

pub record Database : Type 1 where
  pub Table : Type 0
  pub find : String → Table → Option Domain
  pub all : Table → List Domain
  -- a new row, refused where the name is taken (`unique=True`)
  pub add : Domain → Table → Option Table
  -- the new and changed rows of a session, in one transaction
  pub save : List Domain → Table → Option Table
  pub remove : String → Table → Option Table

pub record IsDatabase (D : Database) : Type 0 where
  pub find-all : (k : String) (t : D.Table) → D.find k t ≡ row k (D.all t)
  pub all-IsUnique : (t : D.Table) → IsUnique (D.all t)
  pub find-add :
      (d : Domain) (t u : D.Table)
      → D.add d t ≡ some u
      → (k : String) → D.find k u ≡ (if k == d.domain then some d else D.find k t)
  pub add_taken : (d : Domain) (t : D.Table) → D.find d.domain t ≢ none → D.add d t ≡ none
  pub find-save :
      (ds : List Domain) (t u : D.Table)
      → D.save ds t ≡ some u
      → (k : String) → D.find k u ≡ or_row (row k ds) (D.find k t)
  pub find-remove :
      (j : String) (t u : D.Table)
      → D.remove j t ≡ some u
      → (k : String) → D.find k u ≡ (if k == j then none else D.find k t)

-- No commit raises, as long as new names are free.
pub record IsReliable (D : Database) : Type 0 where
  pub add-free : (d : Domain) (t : D.Table) → D.find d.domain t ≡ none → D.add d t ≢ none
  pub save_succeeds : (ds : List Domain) (t : D.Table) → D.save ds t ≢ none
  pub remove_succeeds : (j : String) (t : D.Table) → D.remove j t ≢ none
