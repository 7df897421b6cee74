-- ===== src/Cdc/HandoverTests.antt =====
-- internal/cdc: a snapshot and the stream behind it at a concrete input.
use waltap.Prelude.{
  ℕ, ◌+◌, ◌≡◌, refl, true, false, Option, none, some, List, [], ◌∷◌, Bytes, codes, ok, length, ltb,
  if◌then◌else◌, bytes_eq, index_byte,
}
use waltap.Cdc.Event.{decoded, ChangeEvent, insert}
use waltap.Cdc.Event.Takes.{Takes}
use waltap.Cdc.Filter.{Filter, match_event, passes}
use waltap.Cdc.Decode.{RelationMessage, decode_tuple, decode_columns, set_column, text_value}
use waltap.Cdc.Stream.{
  Message, relation, Deps, done, process, process_message, change, deliver, deliver_if_match,
  find_relation,
}
use waltap.Cdc.Stream.Decoded.{with_log}
use waltap.Cdc.Loop.{
  Protocol, copy_data, Round, Loop, Exit, running, start_loop, run_loop, message_loop, loop_round,
  receive, receive_copy_data, receive_xlog, periodic_ack, xlog_end,
}
use waltap.Cdc.Loop.Acks.{xlogs}
use waltap.Cdc.Loop.HandedOver.{decoded_events}
use waltap.Cdc.Snapshot.{
  fetched, Database, run_snapshot, snapshot_tables, snapshot_table, emit_rows, table_columns,
  read_columns, ◌>>=◌,
}
use waltap.Cdc.Snapshot.Complete.{SnapshotTaken}
use waltap.Cdc.Connect.{
  Command, start_replication, Server, went_on, start_stream, ensure_publication, ensure_slot,
  publication_sql,
}
use waltap.Cdc.Connect.Starts.{Last}
use waltap.Cdc.Construct.{StreamConfig, new_stream, set_start_lsn, separator}
use waltap.Cdc.Handover.{run_stream, snapshot_then_stream}

abbrev users : RelationMessage
users = record {
  relation_id = 7;
  namespace = codes "public";
  relation_name = codes "t";
  columns = [];
}

-- A message is its first byte.
abbrev parse : Bytes → Option Message
parse [] = none
parse (c ∷ s) = if ltb c 1 then some (relation users) else some (Message.insert 7 (some []))

-- The handler counts the events.
abbrev deps : Deps ℕ ℕ ℕ
deps = record {
  parse = parse;
  lsn_string = λ n. n ∷ [];
  codecs = λ oid. none;
  handler = λ h event. (h + 1, none);
}

-- The position is the number of events so far.
abbrev database : Database ℕ ℕ ℕ
database = record {
  connect = λ h. (h, none);
  begin_tx = λ h. (h, none);
  wal_lsn = λ h. (h, fetched (b'0' ∷ b'/' ∷ (b'0' + h) ∷ []));
  columns = λ table h. (h, fetched (record { rows = fetched (codes "id") ∷ []; error = none }));
  query = λ sql h. (h, fetched (record { rows = fetched (decoded 1 ∷ []) ∷ []; error = none }));
  commit_tx = λ h. (h, none);
  now = λ table. 3;
}

-- A server whose publication is there, and where the slot is created at 70.
abbrev server : Server ℕ
server = record {
  replication = none;
  identify = none;
  normal = none;
  publications = fetched 1;
  publish = λ sql. none;
  slot = fetched (codes "0/F");
  lookup_connect = none;
  slot_rows = fetched [];
  start = λ lsn. none;
  parse_lsn = λ s. some (length s + 67);
}

abbrev protocol : Protocol
protocol = record {
  keepalive_id = b'k';
  xlog_data_id = b'w';
  parse_keepalive = λ s. some true;
  parse_xlog_data = λ s. some (record { wal_start = 100; wal_data = s });
}

abbrev wal : ℕ → Round
wal c = record {
  cancelled = false;
  now = 1;
  now_acked = 2;
  ack_sent = true;
  reply_sent = true;
  received = copy_data (b'w' ∷ c ∷ []);
}

abbrev rounds : List Round
rounds = wal 0 ∷ wal 1 ∷ []

abbrev no_filter : Filter
no_filter = record { tables = []; actions = [] }

-- The handler's state is that behind the snapshot.
abbrev configured : StreamConfig ℕ
configured = record {
  repl_conn_str = codes "postgres://h/db?replication=database";
  normal_conn_str = codes "postgres://h/db";
  slot_name = codes "s";
  config = record { publication = codes "p"; filter = no_filter; start_lsn_override = [] };
  stream = record { relations = []; current_xid = 0; current_commit_time = 0; handled = 1 };
}

test_new_stream :
    new_stream (codes "postgres://h/db") (codes "s") (codes "p") no_filter 1 ≡ configured
unfolding new_stream separator index_byte
test_new_stream = refl

abbrev position : Bytes
position = codes "0/0"

abbrev log : List Command
log =
    Command.open_replication
    ∷ Command.identify_system
    ∷ Command.open_normal
    ∷ Command.find_publication
    ∷ Command.create_slot
    ∷ start_replication 70
    ∷ []

abbrev end_loop : Loop ℕ × Exit ℕ
end_loop = message_loop deps no_filter protocol true rounds (start_loop 5 configured.stream)

snapshot_of_t : run_snapshot database deps.handler (codes "t" ∷ []) 0 ≡ (1, ok position)
unfolding run_snapshot snapshot_tables snapshot_table emit_rows table_columns read_columns ◌>>=◌
snapshot_of_t = refl

stream_running :
    run_stream server
      (λ tables. tables)
      deps
      protocol
      5
      true
      rounds
      (set_start_lsn position configured)
    ≡ went_on log (end_loop.0, running)
unfolding run_stream set_start_lsn start_stream ensure_publication ensure_slot publication_sql
    message_loop run_loop loop_round periodic_ack receive receive_copy_data receive_xlog
    process_message process change deliver deliver_if_match match_event passes find_relation
    decode_tuple decode_columns set_column text_value insert bytes_eq xlog_end
stream_running = refl

snapshot_then_stream_example :
    (lsn : ℕ) × (events : List (ChangeEvent ℕ)) × SnapshotTaken database deps.handler
      (codes "t" ∷ [])
      position
      0
      1
    × (server.parse_lsn position ≡ some lsn)
    × Last (start_replication lsn) log
    × (decoded_events deps no_filter protocol (xlogs protocol rounds) configured.stream []
        ≡ (with_log deps no_filter end_loop.0.stream events, done))
    × Takes deps.handler events 1 end_loop.0.stream.handled
snapshot_then_stream_example =
    snapshot_then_stream server (λ tables. tables) deps protocol database (codes "t") [] b'0'
      (codes "/0") 0 1 5 true rounds configured log end_loop.0 snapshot_of_t refl stream_running
