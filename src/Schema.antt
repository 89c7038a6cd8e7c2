-- ===== src/Schema.antt =====
-- directdnsonly/app/db/__init__.py: the migration of the `domains` table, and the URL of the
-- database. SQLAlchemy and the database are parameters.
pub mod Migrated
pub mod Default
use directdnsonly.Base.{
  ℕ, String, ◌<>◌, Bool, true, false, ◌&&◌, Option, none, some, List, [], ◌∷◌, ◌++◌, if◌then◌else◌,
  ◌==◌, string_eq, contains,
}
use directdnsonly.Base.Exec.{Result, ok, raised, other}

abbrev pub migrations : List String
migrations = "zone_data" ∷ "zone_updated_at" ∷ []

-- One column: selecting it raises exactly if it is missing; adding it may raise, which is dropped.
unfoldable pub add_column : (String → Bool) → String → List String → List String
add_column alter column columns =
    if contains columns column
    then columns
    else if alter column
    then columns ++ (column ∷ [])
    else columns

unfoldable pub add_columns : (String → Bool) → List String → List String → List String
unfolding add_column
add_columns alter [] columns = columns
add_columns alter (c ∷ cs) columns = add_columns alter cs (add_column alter c columns)

-- `_migrate`, on the columns of the table
unfoldable pub migrate : (String → Bool) → List String → List String
unfolding add_columns
migrate alter columns = add_columns alter migrations columns

-- The settings of the datastore; `none` is a setting that is not made.
pub record Datastore : Type 0 where
  pub db_location : Option String
  pub user : Option String
  pub host : Option String
  pub name : Option String
  pub pass : Option String
  pub port : String

abbrev pub mysql_url : Datastore → Result String
mysql_url s = elim s.user [
  | none ↦ raised other
  | some user ↦ elim s.name [
    | none ↦ raised other
    | some name ↦ elim s.pass [
      | none ↦ raised other
      | some pass ↦ elim s.host [
        | none ↦ raised other
        | some host ↦ ok (
            "mysql+pymysql://"
            <> (user <> (":" <> (pass <> ("@" <> (host <> (":" <> (s.port <> ("/" <> name)))))))))
      ]
    ]
  ]
]

abbrev pub sqlite_url : Option String → Result String
sqlite_url none = raised other
sqlite_url (some path) = ok ("sqlite:///" <> path)

-- `connect`: the URL that the engine is made for
unfoldable pub connect : String → Datastore → Result String
connect dbtype s =
    if dbtype == "sqlite"
    then sqlite_url s.db_location
    else if dbtype == "mysql"
    then mysql_url s
    else raised other

-- `connect()`: the call that the workers, the peer sync, the reconciler and the handlers make
unfoldable pub connect_default : Datastore → Result String
unfolding connect
connect_default s = connect "sqlite" s
