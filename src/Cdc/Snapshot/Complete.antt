-- ===== src/Cdc/Snapshot/Complete.antt =====
-- What a snapshot that returns a position has handed over, and in which order.
use waltap.Prelude.{
  ℕ, ◌+◌, ◌≡◌, ◌≢◌, refl, sym, ap, ◌∙◌, Option, none, some, List, [], ◌∷◌, map, Bytes, Outcome, ok,
}
use waltap.Cdc.Event.{Value, ChangeEvent}
use waltap.Cdc.Event.Takes.{Takes, takes_none, takes}
use waltap.Cdc.Snapshot.{
  Fetched, fetched, unread, Database, SnapshotError, handler_refused, rows_ended, row_failed,
  columns_ended, columns_failed, rows_failed, check, connect_failed, begin_failed, lsn_failed,
  commit_failed, read_columns, some_columns, select_all, snapshot_event, after_event, emit_rows,
  table_columns, snapshot_table, snapshot_tables, run_snapshot, ask_for, given, command,
}
use waltap.Cdc.Snapshot.Answers.{
  outcome_value, read_columns-fetched, err-ok, check-ok, some_columns-ok, rows_eq, chain-ok,
  given-ok, ask_for-ok, command-ok,
}

module _ {V H E : Type 0} (db : Database V H E) (handler : H → ChangeEvent V → H × Option E) where
  -- A table that is read whole: its columns are asked for first, of which there are some, its rows
  -- in the state behind that, and the events are handed over in the state behind the rows.
  pub record TableTaken (table : Bytes) (h h' : H) : Type 0 where
    pub columns : List Bytes
    pub values : List (List (Value V))
    pub has_columns : columns ≢ []
    pub behind_columns : H
    pub columns_read :
        db.columns table h
        ≡ (behind_columns, fetched (record { rows = map fetched columns; error = none }))
    pub behind_rows : H
    pub rows_read :
        db.query (select_all table) behind_columns
        ≡ (behind_rows, fetched (record { rows = map fetched values; error = none }))
    pub taken : Takes handler (map (snapshot_event db table columns) values) behind_rows h'

  pub data TablesTaken : List Bytes → H → H → Type 0 where
    tables_none : {h : H} → TablesTaken [] h h
    tables_taken :
        {table : Bytes} {tables : List Bytes} {h h' end : H}
        → TableTaken table h h'
        → TablesTaken tables h' end
        → TablesTaken (table ∷ tables) h end

  -- A snapshot: the connection, the transaction, the position, the tables and the commit, each in
  -- the state behind the one before it.
  pub record SnapshotTaken (tables : List Bytes) (position : Bytes) (h h' : H) : Type 0 where
    pub connected : H
    pub begun : H
    pub positioned : H
    pub read : H
    pub connects : db.connect h ≡ (connected, none)
    pub begins : db.begin_tx connected ≡ (begun, none)
    pub reads_position : db.wal_lsn begun ≡ (positioned, fetched position)
    pub reads_tables : TablesTaken tables positioned read
    pub commits : db.commit_tx read ≡ (h', none)

  after_event-ok :
      (next : H → H × Outcome (SnapshotError E) ℕ) (r : H × Option E) (h' : H) (n : ℕ)
      → after_event db handler next r ≡ (h', ok n)
      → (h : H) × (r ≡ (h, none)) × (next h ≡ (h', ok n))
  after_event-ok next (h, none) h' n e = (h, refl, e)
  after_event-ok next (h, some f) h' n e = absurd (err-ok h h' (handler_refused f) n e)

  emit_rows-Takes :
      (table : Bytes) (columns : List Bytes) (rows : List (Fetched E (List (Value V))))
      (count n : ℕ) (h h' : H)
      → emit_rows db handler table columns rows count h ≡ (h', ok n)
      → (values : List (List (Value V))) × (rows ≡ map fetched values)
        × Takes handler (map (snapshot_event db table columns) values) h h'
  unfolding emit_rows
  emit_rows-Takes table columns [] count n h h' e =
      let same : h ≡ h' = ap (λ (x : H × Outcome (SnapshotError E) ℕ). x.0) e in
      ([], refl, rw same takes_none)
  emit_rows-Takes table columns (unread f ∷ rows) count n h h' e =
      absurd (err-ok h h' (row_failed f) n e)
  emit_rows-Takes table columns (fetched vs ∷ rows) count n h h' e =
      let event = snapshot_event db table columns vs in
      let (h1, step, rest) =
        after_event-ok (emit_rows db handler table columns rows (count + 1)) (handler h event) h' n
          e in
      let (values, r, t) = emit_rows-Takes table columns rows (count + 1) n h1 h' rest in
      (vs ∷ values, rw r, takes step t)

  table_columns-ok :
      (table : Bytes) (columns : List Bytes) (h h' : H)
      → table_columns db table h ≡ (h', ok columns)
      → (columns ≢ [])
        × (db.columns table h ≡ (h', fetched (record { rows = map fetched columns; error = none })))
  unfolding table_columns
  table_columns-ok table columns h h' e =
      let (h1, answer, asked, e1) =
        chain-ok (ask_for columns_failed (db.columns table)) _ h h' columns e in
      let (h2, all, read, e2) = chain-ok (given (read_columns answer.rows [])) _ h1 h' columns e1 in
      let (h3, u, checked, e3) =
        chain-ok (given (check columns_ended answer.error)) _ h2 h' columns e2 in
      let (s1, read_is) = given-ok (read_columns answer.rows []) h1 h2 all read in
      let (s2, no_error) = given-ok (check columns_ended answer.error) h2 h3 u checked in
      let (s3, some_is) = given-ok (some_columns table all) h3 h' columns e3 in
      let (names, rows_are, all_are) = read_columns-fetched answer.rows [] all read_is in
      let (some_names, same) = some_columns-ok table all columns some_is in
      (
        some_names,
        ask_for-ok columns_failed (db.columns table) h h1 answer asked
            ∙ ap (λ x. (x, fetched answer)) (s1 ∙ s2 ∙ s3)
            ∙ ap (λ a. (h', fetched a))
                (rows_eq answer columns (rows_are ∙ ap (map fetched) (sym all_are ∙ same))
                  (check-ok columns_ended answer.error u no_error)),
      )

  snapshot_table-taken :
      (table : Bytes) (h h' : H) (n : ℕ)
      → snapshot_table db handler table h ≡ (h', ok n)
      → TableTaken table h h'
  unfolding snapshot_table
  snapshot_table-taken table h h' n e =
      let (h1, columns, found, e1) = chain-ok (table_columns db table) _ h h' n e in
      let (h2, answer, asked, e2) =
        chain-ok (ask_for rows_failed (db.query (select_all table))) _ h1 h' n e1 in
      let (h3, count, emitted, e3) =
        chain-ok (emit_rows db handler table columns answer.rows 0) _ h2 h' n e2 in
      let (h4, u, checked, e4) = chain-ok (given (check rows_ended answer.error)) _ h3 h' n e3 in
      let (s3, no_error) = given-ok (check rows_ended answer.error) h3 h4 u checked in
      let (s4, same_count) = given-ok (ok count) h4 h' n e4 in
      let (has, read) = table_columns-ok table columns h h1 found in
      let (values, rows_are, taken) =
        emit_rows-Takes table columns answer.rows 0 count h2 h3 emitted in
      record {
        columns = columns;
        values = values;
        has_columns = has;
        behind_columns = h1;
        columns_read = read;
        behind_rows = h2;
        rows_read =
            ask_for-ok rows_failed (db.query (select_all table)) h1 h2 answer asked
            ∙ ap (λ a. (h2, fetched a))
                (rows_eq answer values rows_are (check-ok rows_ended answer.error u no_error));
        taken = rw (s3 ∙ s4) at taken;
      }

  -- The tables, and the commit in the state behind them.
  snapshot_tables-taken :
      (tables : List Bytes) (lsn position : Bytes) (h h' : H)
      → snapshot_tables db handler tables lsn h ≡ (h', ok position)
      → (read : H) × (lsn ≡ position) × TablesTaken tables h read × (db.commit_tx read ≡ (h', none))
  unfolding snapshot_tables
  snapshot_tables-taken [] lsn position h h' e =
      let (h1, u, committed, e1) =
        chain-ok (command commit_failed db.commit_tx) _ h h' position e in
      let (same, value) = given-ok (ok lsn) h1 h' position e1 in
      (
        h,
        outcome_value lsn position value,
        tables_none,
        command-ok commit_failed db.commit_tx h h1 u committed ∙ ap (λ x. (x, none)) same,
      )
  snapshot_tables-taken (table ∷ tables) lsn position h h' e =
      let (h1, n, emitted, e1) = chain-ok (snapshot_table db handler table) _ h h' position e in
      let (read, same, taken, committed) = snapshot_tables-taken tables lsn position h1 h' e1 in
      (read, same, tables_taken (snapshot_table-taken table h h1 n emitted) taken, committed)

  -- Where the snapshot of some tables returns a position, it is what the log's position was in the
  -- state in which the transaction had begun, and in the states behind that every table was found
  -- and read to its end without an error, and the handler took every row of every table, as an
  -- insert, once and in order, and refused none; then the transaction was committed.
  pub run_snapshot-taken :
      (table : Bytes) (tables : List Bytes) (position : Bytes) (h h' : H)
      → run_snapshot db handler (table ∷ tables) h ≡ (h', ok position)
      → SnapshotTaken (table ∷ tables) position h h'
  unfolding run_snapshot
  run_snapshot-taken table tables position h h' e =
      let (h1, u, connects, e1) = chain-ok (command connect_failed db.connect) _ h h' position e in
      let (h2, v, begins, e2) = chain-ok (command begin_failed db.begin_tx) _ h1 h' position e1 in
      let (h3, lsn, asked, e3) = chain-ok (ask_for lsn_failed db.wal_lsn) _ h2 h' position e2 in
      let (read, same, taken, committed) =
        snapshot_tables-taken (table ∷ tables) lsn position h3 h' e3 in
      record {
        connected = h1;
        begun = h2;
        positioned = h3;
        read = read;
        connects = command-ok connect_failed db.connect h h1 u connects;
        begins = command-ok begin_failed db.begin_tx h1 h2 v begins;
        reads_position =
            ask_for-ok lsn_failed db.wal_lsn h2 h3 lsn asked ∙ ap (λ x. (h3, fetched x)) same;
        reads_tables = taken;
        commits = committed;
      }
