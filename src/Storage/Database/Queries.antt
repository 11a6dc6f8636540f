-- ===== src/Storage/Database/Queries.antt =====
-- The two queries agree (src/storage/Database.cpp).
use mathlib.Core.List
use code_tribunal.Prelude.{
  ℕ, suc, ◌≡◌, refl, sym, ap, ◌∙◌, Bool, true, false, Option, none, some, List, [], ◌∷◌, ◌++◌, Text,
  map,
}
use code_tribunal.Storage.Database.{
  Steps, row, done, failed, prepared, Sqlite, Database, returned, column_text, first_row, query_one,
  all_rows, query_all,
}

module _ {S : Type 0} (sqlite : Sqlite S) where
  -- The rows that the steps give before they end.
  unfoldable pub rows_of : Steps → List (List Text)
  rows_of (row columns steps) = map (column_text sqlite) columns ∷ rows_of steps
  rows_of done = []
  rows_of (failed message) = []

  -- The steps end without an error.
  unfoldable pub ends_well : Steps → Bool
  ends_well (row columns steps) = ends_well steps
  ends_well done = true
  ends_well (failed message) = false

  -- The first element, if there is one.
  abbrev pub first : List (List Text) → Option (List Text)
  first [] = none
  first (r ∷ rows) = some r

  all_rows_of :
      (d : Database S) (c : S) (sql : Text) (n : ℕ) (rows : List (List Text)) (steps : Steps)
      → ends_well steps ≡ true
      → (all_rows sqlite d c sql n rows steps).1 ≡ returned (rows ++ rows_of steps)
  unfolding all_rows rows_of ends_well
  all_rows_of d c sql n rows (row columns steps) h =
      all_rows_of d c sql (suc n) (rows ++ map (column_text sqlite) columns ∷ []) steps h
      ∙ ap returned (List.append_assoc rows _ (rows_of steps))
  all_rows_of d c sql n rows done h = ap returned (sym (List.append-nil rows))
  all_rows_of d c sql n rows (failed m) h = cc

  first_row_of :
      (d : Database S) (c : S) (sql : Text) (steps : Steps)
      → ends_well steps ≡ true
      → (first_row sqlite d c sql steps).1 ≡ returned (first (rows_of steps))
  unfolding first_row rows_of ends_well
  first_row_of d c sql (row columns steps) h = refl
  first_row_of d c sql done h = refl
  first_row_of d c sql (failed m) h = cc

  -- On an open database, for a statement that prepares and whose steps end without an error, `query_all`
  -- returns all its rows in their order and `query_one` the first of these rows, or no row if it has none.
  pub query_one-query_all :
      (d : Database S) (c : S) (sql : Text) (steps : Steps)
      → d.db ≡ some c
      → sqlite.prepare c sql ≡ prepared steps
      → ends_well steps ≡ true
      → ((query_all sqlite d sql).1 ≡ returned (rows_of steps))
        × ((query_one sqlite d sql).1 ≡ returned (first (rows_of steps)))
  unfolding query_one query_all
  query_one-query_all d c sql steps o p h = (
    rw (o, query_all) (rw (p, query_all) (all_rows_of d c sql 0 [] steps h)),
    rw (o, query_one) (rw (p, query_one) (first_row_of d c sql steps h)),
  )
