-- ===== src/Schema/Migrated.antt =====
-- What a migration (directdnsonly/app/db/__init__.py) leaves.
use directdnsonly.Base.{
  String, ◌≡◌, ap, ◌∙◌, Bool, true, not, ◌&&◌, ◌||◌, List, [], ◌∷◌, ◌==◌, string_eq, contains,
  contains-append, arith,
}
use directdnsonly.Schema.{migrations, add_column, add_columns, migrate}

module _ (alter : String → Bool) where
  contains-add_column :
      (c k : String) (columns : List String)
      → contains (add_column alter c columns) k ≡ (contains columns k || (alter c && (k == c)))
  unfolding add_column
  contains-add_column c k columns = ground (arith, contains-append columns (c ∷ []) k)

  contains-add_columns :
      (cs : List String) (k : String) (columns : List String)
      → contains (add_columns alter cs columns) k
        ≡ (contains columns k || (contains cs k && alter k))
  unfolding add_columns
  contains-add_columns [] k columns = ground arith
  contains-add_columns (c ∷ cs) k columns = ground (
    arith,
    contains-add_columns cs k (add_column alter c columns),
    contains-add_column c k columns,
    ap alter,
  )

  settled :
      (c : String) (columns : List String)
      → (contains columns c || not (alter c)) ≡ true
      → add_column alter c columns ≡ columns
  unfolding add_column
  settled c columns h = ground (arith, h)

  is_settled :
      (c d : String) (columns : List String)
      → (contains (add_column alter d (add_column alter c columns)) c || not (alter c)) ≡ true
  is_settled c d columns =
      ground (
        arith,
        contains-add_column d c (add_column alter c columns),
        contains-add_column c c columns,
      )

  is_settled_last :
      (d : String) (columns : List String)
      → (contains (add_column alter d columns) d || not (alter d)) ≡ true
  is_settled_last d columns = ground (arith, contains-add_column d d columns)

  -- After a migration the table has the columns that it had and those of the two new ones that could be added;
  -- a second one changes nothing.
  pub migrate_lem :
      (columns : List String)
      → ((k : String)
          → contains (migrate alter columns) k
            ≡ (contains columns k || (contains migrations k && alter k)))
        × (migrate alter (migrate alter columns) ≡ migrate alter columns)
  unfolding migrate
  migrate_lem columns = (λ k. contains-add_columns migrations k columns, again columns)
    where
      again :
          (columns : List String) → migrate alter (migrate alter columns) ≡ migrate alter columns
      again columns =
          let once = add_column alter "zone_data" columns in
          let done = add_column alter "zone_updated_at" once in
          ap (add_column alter "zone_updated_at")
            (settled "zone_data" done (is_settled "zone_data" "zone_updated_at" columns))
          ∙ settled "zone_updated_at" done (is_settled_last "zone_updated_at" once)
