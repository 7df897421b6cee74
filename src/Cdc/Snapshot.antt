-- ===== src/Cdc/Snapshot.antt =====
-- internal/cdc/snapshot.go: the rows of the tables as events, before the stream starts. The
-- database is a parameter, as is the handler, which keeps a state of type `H`.
pub mod Quoting
pub mod Answers
pub mod Complete
pub mod Cells
use waltap.Prelude.{
  ℕ, suc, ◌+◌, Bool, Option, none, some, List, [], ◌∷◌, ◌++◌, ◌==◌, if◌then◌else◌, Bytes, codes,
  Outcome, ok, err, panic,
}
use waltap.Cdc.Event.{Value, Row, insert, ChangeEvent}

-- A row as it is read, or the error of reading it.
pub data Fetched (E A : Type 0) : Type 0 where
  fetched : A → Fetched E A
  unread : E → Fetched E A

-- The rows of a query up to the one that cannot be read, and the error behind the last.
pub record Rows (E A : Type 0) : Type 0 where
  pub rows : List (Fetched E A)
  pub error : Option E

-- What the snapshot asks the database, and the time of each table. `H` is the state of the world,
-- that of the database and of the handler: a question is asked in one state, and is answered, or
-- answered by an error, in the next.
pub record Database (V H E : Type 0) : Type 0 where
  pub connect : H → H × Option E
  pub begin_tx : H → H × Option E
  pub wal_lsn : H → H × Fetched E Bytes
  pub columns : Bytes → H → H × Fetched E (Rows E Bytes)
  pub query : Bytes → H → H × Fetched E (Rows E (List (Value V)))
  pub commit_tx : H → H × Option E
  pub now : Bytes → ℕ

pub data SnapshotError (E : Type 0) : Type 0 where
  connect_failed begin_failed lsn_failed commit_failed : E → SnapshotError E
  columns_failed column_failed columns_ended rows_failed row_failed : E → SnapshotError E
  handler_refused rows_ended : E → SnapshotError E
  no_columns : Bytes → SnapshotError E

-- `strings.ReplaceAll` of a quote by two
unfoldable pub double_quotes : Bytes → Bytes
double_quotes [] = []
double_quotes (c ∷ s) = if c == b'"' then b'"' ∷ b'"' ∷ double_quotes s else c ∷ double_quotes s

unfoldable pub quote_ident : Bytes → Bytes
unfolding double_quotes
quote_ident name = b'"' ∷ (double_quotes name ++ b'"' ∷ [])

unfoldable pub select_all : Bytes → Bytes
unfolding quote_ident
select_all table = codes "SELECT * FROM " ++ quote_ident table

abbrev pub check :
    {E : Type 0} → (E → SnapshotError E) → Option E → Outcome {0, 0} (SnapshotError E) (Unit {0})
check failure none = ok tt
check failure (some e) = err (failure e)

-- A function that asks the database and calls the handler, and fails or returns.
abbrev pub Asks : Type 0 → Type 0 → Type 0 → Type 0
Asks H E A = H → H × Outcome (SnapshotError E) A

-- the early return on an error
abbrev pub proceed :
    {H E A B : Type 0}
    → (A → Asks H E B)
    → H × Outcome (SnapshotError E) A
    → H × Outcome (SnapshotError E) B
proceed next (h, ok a) = next a h
proceed next (h, err e) = (h, err e)
proceed next (h, panic) = (h, panic)

infixl 5 ◌>>=◌
unfoldable pub ◌>>=◌ : {H E A B : Type 0} → Asks H E A → (A → Asks H E B) → Asks H E B
◌>>=◌ m next h = proceed next (m h)

abbrev pub given : {H E A : Type 0} → Outcome (SnapshotError E) A → Asks H E A
given o h = (h, o)

-- The error of an answer, under its name.
abbrev pub named :
    {H E A : Type 0} → (E → SnapshotError E) → H × Fetched E A → H × Outcome (SnapshotError E) A
named failure (h, fetched a) = (h, ok a)
named failure (h, unread e) = (h, err (failure e))

abbrev pub ask_for : {H E A : Type 0} → (E → SnapshotError E) → (H → H × Fetched E A) → Asks H E A
ask_for failure question h = named failure (question h)

abbrev pub command :
    {H E : Type 0} → (E → SnapshotError E) → (H → H × Option E) → Asks H E (Unit {0})
command failure question h = ((question h).0, check failure (question h).1)

-- The loop over the columns' names.
unfoldable pub read_columns :
    {E : Type 0} → List (Fetched E Bytes) → List Bytes → Outcome (SnapshotError E) (List Bytes)
read_columns [] columns = ok columns
read_columns (unread e ∷ rows) columns = err (column_failed e)
read_columns (fetched col ∷ rows) columns = read_columns rows (columns ++ col ∷ [])

-- The loop over the columns of a row: a column beyond its values has none.
unfoldable pub row_map : {V : Type 0} → List Bytes → List (Value V) → Row V → Row V
unfolding insert
row_map [] values row = row
row_map (col ∷ columns) [] row = row
row_map (col ∷ columns) (v ∷ values) row = row_map columns values (insert col v row)

abbrev pub some_columns : {E : Type 0} → Bytes → List Bytes → Outcome (SnapshotError E) (List Bytes)
some_columns table [] = err (no_columns table)
some_columns table (col ∷ columns) = ok (col ∷ columns)

module _ {V H E : Type 0} (db : Database V H E) where
  unfoldable pub snapshot_event : Bytes → List Bytes → List (Value V) → ChangeEvent V
  unfolding row_map
  snapshot_event table columns values = record {
    action = codes "INSERT";
    schema = codes "public";
    table = table;
    new = some (row_map columns values []);
    old = none;
    timestamp = db.now table;
    lsn = codes "snapshot";
    xid = 0;
  }

  unfoldable pub table_columns : Bytes → Asks H E (List Bytes)
  unfolding read_columns
  table_columns table = do
    answer ← ask_for columns_failed (db.columns table)
    columns ← given (read_columns answer.rows [])
    _ ← given (check columns_ended answer.error)
    given (some_columns table columns)

module _ {V H E : Type 0} (db : Database V H E) (handler : H → ChangeEvent V → H × Option E) where
  abbrev pub after_event : Asks H E ℕ → H × Option E → H × Outcome (SnapshotError E) ℕ
  after_event next (h, none) = next h
  after_event next (h, some e) = (h, err (handler_refused e))

  -- The loop over the rows, with their number so far.
  unfoldable pub emit_rows : Bytes → List Bytes → List (Fetched E (List (Value V))) → ℕ → Asks H E ℕ
  unfolding snapshot_event
  emit_rows table columns [] count h = (h, ok count)
  emit_rows table columns (unread e ∷ rows) count h = (h, err (row_failed e))
  emit_rows table columns (fetched values ∷ rows) count h =
      after_event (emit_rows table columns rows (count + 1))
        (handler h (snapshot_event db table columns values))

  unfoldable pub snapshot_table : Bytes → Asks H E ℕ
  unfolding emit_rows table_columns select_all
  snapshot_table table = do
    columns ← table_columns db table
    answer ← ask_for rows_failed (db.query (select_all table))
    count ← emit_rows table columns answer.rows 0
    _ ← given (check rows_ended answer.error)
    given (ok count)

  -- The loop over the tables, and what is behind it.
  unfoldable pub snapshot_tables : List Bytes → Bytes → Asks H E Bytes
  unfolding snapshot_table
  snapshot_tables [] lsn = do _ ← command commit_failed db.commit_tx; given (ok lsn)
  snapshot_tables (table ∷ tables) lsn = do _ ← snapshot_table table; snapshot_tables tables lsn

  -- `Run`: with no tables it does nothing and returns no position.
  unfoldable pub run_snapshot : List Bytes → Asks H E Bytes
  unfolding snapshot_tables
  run_snapshot [] = given (ok [])
  run_snapshot (table ∷ tables) = do
    _ ← command connect_failed db.connect
    _ ← command begin_failed db.begin_tx
    lsn ← ask_for lsn_failed db.wal_lsn
    snapshot_tables (table ∷ tables) lsn
