-- ===== src/Proxy/Session.antt =====
-- internal/proxy/proxy.go: `handleClient`, the session of one client. Each statement is routed,
-- run on a backend, and answered. What the client sends is a stream of bytes; what the proxy
-- writes, and what reaches a backend, is kept in order.

pub mod Writes
pub mod Routing
pub mod Answers
pub mod Transactions
pub mod Whole
pub mod Framed
use waltap.Prelude.{
  ℕ, zero, suc, ◌+◌, Bool, true, false, ◌&&◌, Option, none, some, List, [], ◌∷◌, ◌++◌, map, length,
  ◌==◌, if◌then◌else◌, Bytes, codes, Outcome, ok, err, panic, drop, take, trim_space,
}
use waltap.Proxy.Classifier.{
  QueryType, query_read, query_write, query_transaction, classify_query, first_token, is_one_of,
}
use waltap.Proxy.Wire.{
  FieldDescription, ReadError, eof, parameter_status, ready_for_query, error_response,
  command_complete, row_description, data_row, read_startup_message, read_message, uint32,
  extract_sql,
}
use waltap.Proxy.Startup.{parse_startup_params}

-- `primaryPool` and `replicaPool`
pub data Backend : Type 0 where
  primary replica : Backend

-- What a pool gives for a query: an error, or rows that may break off with one, and what
-- `CommandTag` is: whether the rows have been read to their end, which closes them, or not.
pub data QueryResult : Type 0 where
  query_error : Bytes → QueryResult
  rows :
      List FieldDescription
      → List (List (Option Bytes))
      → Option Bytes
      → (Bool → Bytes)
      → QueryResult

-- What the session meets: the number of bytes that the n-th write has written where it fails, and
-- its error, the result of the n-th query, and whether the context is cancelled at the n-th round.
pub record Env : Type 0 where
  pub write_error : ℕ → Option (ℕ × Bytes)
  pub query : ℕ → Backend → Bytes → QueryResult
  pub cancelled : ℕ → Bool

pub record Client : Type 0 where
  pub sent : List Bytes
  pub writes : ℕ
  pub queried : List (Backend × Bytes)

-- A function that returns `error`.
abbrev pub Io : Type 0
Io = Client → Client × Option Bytes

-- the early return on an error
abbrev pub follow : Io → Client × Option Bytes → Client × Option Bytes
follow k (c, none) = k c
follow k (c, some e) = (c, some e)

infixl 5 ◌>>◌
abbrev pub ◌>>◌ : Io → Io → Io
◌>>◌ m k c = follow k (m c)

abbrev pub fail_with : Option Bytes → Io
fail_with e c = (c, e)

pub record Session : Type 0 where
  pub in_transaction : Bool
  pub tx_failed : Bool

abbrev pub begin_words : List Bytes
begin_words = codes "BEGIN" ∷ codes "START" ∷ codes "begin" ∷ codes "start" ∷ []

-- The `switch` on the class of a statement: the session after it, and the backend.
unfoldable pub route_as : QueryType → Session → Bytes → Session × Backend
route_as query_transaction s sql =
    if is_one_of (first_token sql) begin_words
    then (record { in_transaction = true; tx_failed = false }, primary)
    else (record { in_transaction = false; tx_failed = false }, primary)
route_as query_read s sql = if s.in_transaction then (s, primary) else (s, replica)
route_as query_write s sql = (s, primary)

unfoldable pub route_query : Session → Bytes → Session × Backend
unfolding route_as
route_query s sql = route_as (classify_query sql) s sql

abbrev pub ready_status : Session → ℕ
ready_status s = if s.in_transaction then b'T' else b'I'

-- Behind an error of `executeAndRelay`.
abbrev pub fail_session : Session → Session
fail_session s = if s.in_transaction then record s { tx_failed = true } else s

abbrev pub error_status : Session → ℕ
error_status s = if s.tx_failed then b'E' else ready_status s

abbrev pub tag_or_default : Bytes → Bytes
tag_or_default [] = codes "SELECT 0"
tag_or_default (c ∷ tag) = c ∷ tag

-- The loop over the rows is entered, and closes them.
abbrev pub reads_rows : List FieldDescription → Bool
reads_rows [] = false
reads_rows (f ∷ fs) = true

module _ (env : Env) where
  unfoldable pub send : Bytes → Io
  send msg c = elim (env.write_error c.writes) [
    | none ↦ (record c { sent = c.sent ++ msg ∷ []; writes = suc c.writes }, none)
    | some (n, e) ↦ (record c { sent = c.sent ++ take n msg ∷ []; writes = suc c.writes }, some e)
  ]

  unfoldable pub send_all : List Bytes → Io
  unfolding send
  send_all [] c = (c, none)
  send_all (msg ∷ msgs) c = follow (send_all msgs) (send msg c)

  -- RowDescription and the rows, for a result that has fields.
  unfoldable pub relay_rows : List FieldDescription → List (List (Option Bytes)) → Option Bytes → Io
  unfolding send_all
  relay_rows [] values failure = fail_with none
  relay_rows (f ∷ fs) values failure = do
    send (row_description (f ∷ fs))
    send_all (map data_row values)
    fail_with failure

  unfoldable pub relay : ℕ → QueryResult → Io
  unfolding relay_rows
  relay status (query_error e) = fail_with (some e)
  relay status (rows fields values failure tag) = do
    relay_rows fields values failure
    send (command_complete (tag_or_default (tag (reads_rows fields))))
    send (ready_for_query status)

  unfoldable pub execute_and_relay : Backend → Bytes → ℕ → Io
  unfolding relay
  execute_and_relay pool sql status c =
      relay status (env.query (length c.queried) pool sql)
        (record c { queried = c.queried ++ (pool, sql) ∷ [] })

  -- The answer to an error; what these two writes return is not looked at.
  unfoldable pub send_failure : Bytes → ℕ → Client → Client
  unfolding send
  send_failure message status c =
      (send (ready_for_query status) (send (error_response message) c).0).0

  abbrev pub answered : Session → Client × Option Bytes → Session × Client
  answered s (c, none) = (s, c)
  answered s (c, some e) = (fail_session s, send_failure e (error_status (fail_session s)) c)

  -- The branch of a 'Q' message.
  unfoldable pub handle_query : Session → Bytes → Client → Session × Client
  unfolding route_query execute_and_relay send_failure
  handle_query s sql c =
      let (s', pool) = route_query s sql in
      answered s' (execute_and_relay pool sql (ready_status s') c)

  -- A message that is not 'X'.
  unfoldable pub handle_message : Session → Bytes → Client → Session × Client
  unfolding handle_query
  handle_message s [] c = (s, c)
  handle_message s (kind ∷ body) c =
      if kind == b'Q'
      then handle_query s (extract_sql (kind ∷ body)) c
      else (s, send_failure (codes "only simple query protocol is supported by the proxy") b'I' c)
