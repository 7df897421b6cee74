-- ===== src/Cdc/SetupTests.antt =====
-- internal/cdc: the theorems on snapshots and on the start of the stream at concrete inputs, and
-- runs of the code.
use waltap.Prelude.{
  length, ◌⊎◌, ℕ, ◌+◌, ◌≡◌, refl, Option, none, some, List, [], ◌∷◌, ◌++◌, Bytes, codes, ok,
}
use waltap.Cdc.Event.{null, decoded, Row, ChangeEvent}
use waltap.Cdc.Filter.{Filter}
use waltap.Cdc.Snapshot.{
  fetched, unread, Database, quote_ident, double_quotes, select_all, snapshot_event, run_snapshot,
  snapshot_tables, snapshot_table, emit_rows, table_columns, read_columns, ◌>>=◌,
}
use waltap.Cdc.Snapshot.Quoting.{read_ident, select_all-read_ident}
use waltap.Cdc.Snapshot.Complete.{SnapshotTaken, run_snapshot-taken}
use waltap.Cdc.Snapshot.Cells.{Cells, snapshot_event-Cells}
use waltap.Cdc.Connect.{
  Command, start_replication, Server, Config, went_on, start_stream, ensure_publication,
  ensure_slot, get_slot_lsn, publication_sql,
}
use waltap.Cdc.Connect.Starts.{Last, Published, SlotAt, start_stream-Last}

test_quote_ident : quote_ident (codes "a\"b") ≡ codes "\"a\"\"b\""
unfolding quote_ident double_quotes
test_quote_ident = refl

select_all-read_ident_example :
    (tail : Bytes) × (select_all (codes "a\"; DROP") ≡ codes "SELECT * FROM " ++ b'"' ∷ tail)
    × (read_ident tail [] ≡ some (codes "a\"; DROP", []))
select_all-read_ident_example = select_all-read_ident (codes "a\"; DROP")

-- A database with the table t of the columns id and note, and two rows; the state is what it was
-- asked, and a 7 for each event.
abbrev database : Database ℕ (List ℕ) ℕ
database = record {
  connect = λ h. (h ++ 1 ∷ [], none);
  begin_tx = λ h. (h ++ 2 ∷ [], none);
  wal_lsn = λ h. (h ++ 3 ∷ [], fetched h);
  columns = λ table h. (
    h ++ 4 ∷ [],
    fetched (record { rows = fetched (codes "id") ∷ fetched (codes "note") ∷ []; error = none }),
  );
  query = λ sql h. (
    h ++ 5 ∷ [],
    fetched (record {
      rows = fetched (decoded 1 ∷ null ∷ []) ∷ fetched (decoded 2 ∷ []) ∷ [];
      error = none;
    }),
  );
  commit_tx = λ h. (h ++ 6 ∷ [], none);
  now = λ table. 3;
}

abbrev noting : List ℕ → ChangeEvent ℕ → List ℕ × Option ℕ
noting h event = (h ++ 7 ∷ [], none)

abbrev asked : List ℕ
asked = 1 ∷ 2 ∷ 3 ∷ 4 ∷ 5 ∷ 7 ∷ 7 ∷ 6 ∷ []

snapshot_of_t : run_snapshot database noting (codes "t" ∷ []) [] ≡ (asked, ok (1 ∷ 2 ∷ []))
unfolding run_snapshot snapshot_tables snapshot_table emit_rows table_columns read_columns ◌>>=◌
snapshot_of_t = refl

run_snapshot-taken_example : SnapshotTaken database noting (codes "t" ∷ []) (1 ∷ 2 ∷ []) [] asked
run_snapshot-taken_example =
    run_snapshot-taken database noting (codes "t") [] (1 ∷ 2 ∷ []) [] asked snapshot_of_t

abbrev two_columns : List Bytes
two_columns = codes "id" ∷ codes "note" ∷ []

snapshot_event-Cells_example :
    (row : Row ℕ) × ((snapshot_event database (codes "t") two_columns (decoded 1 ∷ [])).new
      ≡ some row)
    × Cells two_columns (decoded 1 ∷ []) row
snapshot_event-Cells_example =
    snapshot_event-Cells database (codes "t") two_columns (decoded 1 ∷ []) ((λ e. cc, tt), (tt, tt))

abbrev no_filter : Filter
no_filter = record { tables = []; actions = [] }

-- A server whose slot exists, at 70, and where the publication has to be created.
abbrev server : Server ℕ
server = record {
  replication = none;
  identify = none;
  normal = none;
  publications = fetched 0;
  publish = λ sql. none;
  slot = unread 1;
  lookup_connect = none;
  slot_rows = fetched (codes "F" ∷ []);
  start = λ lsn. none;
  parse_lsn = λ s. some (length s + 69);
}

abbrev config : Config
config = record { publication = codes "p"; filter = no_filter; start_lsn_override = [] }

abbrev started : List Command
started =
    Command.open_replication
    ∷ Command.identify_system
    ∷ Command.open_normal
    ∷ Command.find_publication
    ∷ Command.create_publication (codes "CREATE PUBLICATION p FOR ALL TABLES")
    ∷ Command.create_slot
    ∷ Command.open_normal
    ∷ Command.find_slot
    ∷ start_replication 70
    ∷ []

stream_started : start_stream server (λ ts. ts) config ≡ went_on started 70
unfolding start_stream ensure_publication ensure_slot get_slot_lsn publication_sql
stream_started = refl

start_stream-Last_example :
    Last (start_replication 70) started
    × Published server (λ ts. ts) config
    × ((slot : ℕ) × SlotAt server slot
        × (((config.start_lsn_override ≡ []) × (70 ≡ slot))
            ⊎ (server.parse_lsn config.start_lsn_override ≡ some 70)))
start_stream-Last_example = start_stream-Last server (λ ts. ts) config started 70 stream_started
