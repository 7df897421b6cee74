-- ===== src/Cdc/Snapshot/Cells.antt =====
-- The cells of a row as the snapshot's event holds them.
use waltap.Prelude.{◌≡◌, ◌≢◌, refl, sym, ◌∙◌, none, some, List, [], ◌∷◌, Bytes, All}
use waltap.Cdc.Event.{Value, Row, lookup, insert}
use waltap.Cdc.Event.Lookups.{lookup-insert_self, lookup-insert_ne}
use waltap.Cdc.Snapshot.{Database, row_map, snapshot_event}

-- The names of the columns differ.
abbrev pub Differ : List Bytes → Type 0
Differ [] = Unit {0}
Differ (col ∷ columns) = All (λ c. c ≢ col) columns × Differ columns

empty_row-lookup :
    (V : Type 0) (columns : List Bytes) → All (λ c. lookup {V = V} c [] ≡ none) columns
unfolding lookup
empty_row-lookup V [] = tt
empty_row-lookup V (col ∷ columns) = (refl, empty_row-lookup V columns)

module _ {V : Type 0} where
  -- Each column that has a value holds it, and the others hold none.
  abbrev pub Cells : List Bytes → List (Value V) → Row V → Type 0
  Cells [] values row = Unit {0}
  Cells (col ∷ columns) [] row = (lookup col row ≡ none) × Cells columns [] row
  Cells (col ∷ columns) (v ∷ values) row = (lookup col row ≡ some v) × Cells columns values row

  row_map-keeps :
      (k : Bytes) (columns : List Bytes) (values : List (Value V)) (row : Row V)
      → All (λ c. c ≢ k) columns
      → lookup k (row_map columns values row) ≡ lookup k row
  unfolding row_map
  row_map-keeps k [] values row h = refl
  row_map-keeps k (col ∷ columns) [] row h = refl
  row_map-keeps k (col ∷ columns) (v ∷ values) row h =
      row_map-keeps k columns values (insert col v row) h.1 ∙ lookup-insert_ne col k v row h.0

  abbrev Empty : Row V → List Bytes → Type 0
  Empty row = All (λ c. lookup c row ≡ none)

  insert-Empty :
      (col : Bytes) (v : Value V) (row : Row V) (columns : List Bytes)
      → All (λ c. c ≢ col) columns
      → Empty row columns
      → Empty (insert col v row) columns
  insert-Empty col v row [] h f = tt
  insert-Empty col v row (c ∷ columns) h f = (
    lookup-insert_ne col c v row (λ e. h.0 (sym e)) ∙ f.0,
    insert-Empty col v row columns h.1 f.1,
  )

  Empty-Cells : (columns : List Bytes) (row : Row V) → Empty row columns → Cells columns [] row
  Empty-Cells [] row f = tt
  Empty-Cells (col ∷ columns) row f = (f.0, Empty-Cells columns row f.1)

  row_map-Cells :
      (columns : List Bytes) (values : List (Value V)) (row : Row V)
      → Differ columns
      → Empty row columns
      → Cells columns values (row_map columns values row)
  unfolding row_map
  row_map-Cells [] values row d f = tt
  row_map-Cells (col ∷ columns) [] row d f = (f.0, Empty-Cells columns row f.1)
  row_map-Cells (col ∷ columns) (v ∷ values) row d f = (
    row_map-keeps col columns values (insert col v row) d.0 ∙ lookup-insert_self col v row,
    row_map-Cells columns values (insert col v row) d.1 (insert-Empty col v row columns d.0 f.1),
  )

  -- The event of a row, where the names of the columns differ, holds under each column the value
  -- that the row has there, and nothing under the columns beyond its values.
  pub snapshot_event-Cells :
      {H E : Type 0} (db : Database V H E) (table : Bytes) (columns : List Bytes)
      (values : List (Value V))
      → Differ columns
      → (row : Row V) × ((snapshot_event db table columns values).new ≡ some row)
        × Cells columns values row
  unfolding snapshot_event
  snapshot_event-Cells db table columns values d = (
    row_map columns values [],
    refl,
    row_map-Cells columns values [] d (empty_row-lookup V columns),
  )
