-- ===== src/Cdc/Construct.antt =====
-- internal/cdc: `NewStream`, `SetStartLSN`, `NewSnapshot` and `TableList`, which set the fields that
-- the other operations read. The type map of pgx is left out.
use waltap.Prelude.{none, some, List, [], ◌∷◌, ◌++◌, Bytes, codes, index_byte}
use waltap.Cdc.Event.{zero_time}
use waltap.Cdc.Filter.{Filter}
use waltap.Cdc.Stream.{Stream}
use waltap.Cdc.Connect.{Config}

-- The fields of `Stream` from its constructor on; those that messages change are `stream`.
pub record StreamConfig (H : Type 0) : Type 0 where
  pub repl_conn_str : Bytes
  pub normal_conn_str : Bytes
  pub slot_name : Bytes
  pub config : Config
  pub stream : Stream H

-- the separator in front of `replication=database`
unfoldable pub separator : Bytes → Bytes
separator conn_str = elim (index_byte conn_str b'?') [ none ↦ codes "?" | some i ↦ codes "&" ]

module _ {H : Type 0} where
  unfoldable pub new_stream : Bytes → Bytes → Bytes → Filter → H → StreamConfig H
  unfolding separator
  new_stream conn_str slot_name publication filter handled = record {
    repl_conn_str = conn_str ++ (separator conn_str ++ codes "replication=database");
    normal_conn_str = conn_str;
    slot_name = slot_name;
    config = record { publication = publication; filter = filter; start_lsn_override = [] };
    stream = record {
      relations = [];
      current_xid = 0;
      current_commit_time = zero_time;
      handled = handled;
    };
  }

  unfoldable pub set_start_lsn : Bytes → StreamConfig H → StreamConfig H
  set_start_lsn lsn s = record s { config = record s.config { start_lsn_override = lsn } }

pub record SnapshotConfig : Type 0 where
  pub conn_str : Bytes
  pub tables : List Bytes

unfoldable pub new_snapshot : Bytes → List Bytes → SnapshotConfig
new_snapshot conn_str tables = record { conn_str = conn_str; tables = tables }

-- `TableList` on the tables of a filter, in the order that Go's map gives.
abbrev pub table_list : (List Bytes → List Bytes) → List Bytes → List Bytes
table_list order [] = []
table_list order (t ∷ ts) = order (t ∷ ts)
