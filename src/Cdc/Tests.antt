-- ===== src/Cdc/Tests.antt =====
-- internal/cdc: the theorems at concrete inputs, and runs of the code.
use waltap.Prelude.{
  All, All-append, ℕ, ◌+◌, ◌≡◌, ◌↔◌, refl, true, false, Option, none, some, List, [], ◌∷◌, ◌++◌,
  arith, Bytes, codes, ok, bytes_eq, ltb, if◌then◌else◌,
}
use waltap.Cdc.Event.{text, decoded, Row, ChangeEvent, insert}
use waltap.Cdc.Filter.{Filter, match_event, passes}
use waltap.Cdc.Decode.{
  Column, RelationMessage, Codecs, decode_tuple, decode_columns, set_column, text_value,
  binary_value, decimal,
}
use waltap.Cdc.Decode.Columns.{Holds, decode_tuple-Holds}
use waltap.Cdc.Stream.{
  Message, begin, commit, relation, StreamError, handler_failed, Deps, Stream, done, process,
  process_message, change, deliver, deliver_if_match, find_relation,
}
use waltap.Cdc.Stream.Transactions.{process_messages, Within, transaction-Within}
use waltap.Cdc.Loop.{
  Protocol, Received, copy_data, timed_out, Round, Loop, Exit, running, stopped, process_failed,
  run_loop, message_loop, loop_round, receive, receive_copy_data, receive_xlog, receive_keepalive,
  periodic_ack, xlog_end, ack_position, final_ack,
}
use waltap.Cdc.Event.Takes.{Takes}
use waltap.Cdc.Stream.Decoded.{with_log}
use waltap.Cdc.Loop.HandedOver.{decoded_events, process_all-Takes}
use waltap.Cdc.Loop.Acks.{xlogs, process_all, FailedAt, failed_message_acknowledged}

-- A codec for one OID, which reads only the text "1".
abbrev one_codec : Codecs ℕ
one_codec oid =
    if ltb 22 oid
    then some (λ format bytes. if bytes_eq bytes (codes "1") then some 1 else none)
    else none

abbrev users : RelationMessage
users = record {
  relation_id = 7;
  namespace = codes "public";
  relation_name = codes "Users";
  columns =
      (record { name = codes "id"; oid = 23 }) ∷ (record { name = codes "note"; oid = 7 }) ∷ [];
}

abbrev one_column : Column
one_column = record { data_type = b't'; bytes = codes "1" }

abbrev raw_column : Column
raw_column = record { data_type = b'b'; bytes = codes "xyz" }

test_decode_tuple :
    decode_tuple one_codec {E = ⊥} (some (one_column ∷ raw_column ∷ [])) users
    ≡ ok (some ((codes "id", decoded 1) ∷ (codes "note", text (codes "(binary 3 bytes)")) ∷ []))
unfolding decode_tuple decode_columns set_column text_value binary_value decimal insert bytes_eq
test_decode_tuple = refl

decode_tuple-Holds_example :
    (values : Row ℕ) × (decode_tuple one_codec {E = ⊥} (some (one_column ∷ raw_column ∷ [])) users
      ≡ ok (some values))
    × Holds one_codec (one_column ∷ raw_column ∷ []) users.columns values
decode_tuple-Holds_example =
    decode_tuple-Holds one_codec (one_column ∷ raw_column ∷ []) users (omega arith)
      (((λ e. cc), tt), (tt, tt))

-- A handler that counts the events and fails behind the second one; a message is its first byte.
abbrev parse : Bytes → Option Message
parse [] = none
parse (c ∷ s) =
    if ltb c 1
    then some (begin 9 5)
    else if ltb c 2
    then some (relation users)
    else if ltb c 3
    then some (Message.insert 7 (some (one_column ∷ [])))
    else some commit

abbrev deps : Deps ℕ ℕ ℕ
deps = record {
  parse = parse;
  lsn_string = λ n. n ∷ [];
  codecs = one_codec;
  handler = λ h event. (h + 1, if ltb 0 h then some 1 else none);
}

abbrev no_filter : Filter
no_filter = record { tables = []; actions = [] }

abbrev new_stream : Stream ℕ
new_stream = record { relations = []; current_xid = 0; current_commit_time = 0; handled = 0 }

abbrev inside : List (ℕ × Message)
inside = (1, relation users) ∷ (2, Message.insert 7 (some (one_column ∷ []))) ∷ []

test_transaction :
    (process_messages deps no_filter ((0, begin 9 5) ∷ inside) new_stream).0.handled ≡ 1
unfolding process_messages process change deliver deliver_if_match match_event passes find_relation
    decode_tuple decode_columns set_column text_value insert bytes_eq
test_transaction = refl

-- A handler that keeps the transactions' ids and commit times.
abbrev noting : Deps ℕ (List (ℕ × ℕ)) ℕ
noting = record {
  parse = parse;
  lsn_string = λ n. n ∷ [];
  codecs = one_codec;
  handler = λ h event. (h ++ (event.xid, event.timestamp) ∷ [], none);
}

abbrev nothing_noted : Stream (List (ℕ × ℕ))
nothing_noted = record { relations = []; current_xid = 0; current_commit_time = 0; handled = [] }

test_noted :
    (process_messages noting no_filter ((0, begin 9 5) ∷ inside) nothing_noted).0.handled
    ≡ (9, 5) ∷ []
unfolding process_messages process change deliver deliver_if_match match_event passes find_relation
    decode_tuple decode_columns set_column text_value insert bytes_eq
test_noted = refl

transaction-Within_example :
    Within noting no_filter
      (All (λ (note : ℕ × ℕ). note ≡ (9, 5)))
      9
      5
      (process_messages noting no_filter ((0, begin 9 5) ∷ inside) nothing_noted).0
transaction-Within_example =
    transaction-Within noting no_filter (All (λ (note : ℕ × ℕ). note ≡ (9, 5))) 9 5 0 inside
      nothing_noted
      (λ h event p m x t.
        All-append (λ (note : ℕ × ℕ). note ≡ (9, 5)) h ((event.xid, event.timestamp) ∷ []) p
          (rw (x, t), tt))
      (tt, (tt, tt)) tt

abbrev protocol : Protocol
protocol = record {
  keepalive_id = b'k';
  xlog_data_id = b'w';
  parse_keepalive = λ s. some true;
  parse_xlog_data = λ s. some (record { wal_start = 100; wal_data = s });
}

abbrev round : Received → Round
round received = record {
  cancelled = false;
  now = 1;
  now_acked = 2;
  ack_sent = true;
  reply_sent = true;
  received = received;
}

abbrev wal : ℕ → Round
wal c = round (copy_data (b'w' ∷ c ∷ []))

abbrev new_loop : Loop ℕ
new_loop = record {
  stream = new_stream;
  last_received = 0;
  last_acked = 0;
  next_ack_time = 10;
  acks = [];
}

abbrev rounds : List Round
rounds = wal 0 ∷ round timed_out ∷ wal 1 ∷ round (copy_data (b'k' ∷ [])) ∷ wal 2 ∷ []

abbrev end_of : List Round → Loop ℕ × Exit ℕ
end_of rs = run_loop deps no_filter protocol rs new_loop

rounds_running : end_of rounds ≡ ((end_of rounds).0, running)
unfolding run_loop loop_round periodic_ack receive receive_copy_data receive_xlog process_message
    process change deliver deliver_if_match match_event passes find_relation decode_tuple
    decode_columns set_column text_value insert bytes_eq xlog_end
rounds_running = refl

abbrev failing : List Round
failing = rounds ++ wal 2 ∷ []

abbrev failure : StreamError ℕ
failure = handler_failed (codes "INSERT") 1

rounds_failed : end_of failing ≡ ((end_of failing).0, stopped (process_failed failure))
unfolding run_loop loop_round periodic_ack receive receive_copy_data receive_xlog process_message
    process change deliver deliver_if_match match_event passes find_relation decode_tuple
    decode_columns set_column text_value insert bytes_eq xlog_end receive_keepalive
rounds_failed = refl

failed_message_acknowledged_example :
    (t : FailedAt deps no_filter protocol failing new_loop (end_of failing).0 failure)
    × (message_loop deps no_filter protocol true failing new_loop ≡ (
        if ltb (end_of failing).0.last_acked (xlog_end t.xlog)
        then (
          record (end_of failing).0 {
            acks = (end_of failing).0.acks ++ ack_position (xlog_end t.xlog) ∷ [];
          },
          stopped (process_failed failure),
        )
        else ((end_of failing).0, stopped (process_failed failure))))
failed_message_acknowledged_example =
    failed_message_acknowledged deps no_filter protocol failing new_loop (end_of failing).0 failure
      rounds_failed

-- The position behind the event that the handler refused is acknowledged.
test_acknowledged :
    (message_loop deps no_filter protocol true failing new_loop).0.acks ≡ 102 ∷ 102 ∷ []
unfolding message_loop run_loop loop_round periodic_ack receive receive_copy_data receive_xlog
    process_message process change deliver deliver_if_match match_event passes find_relation
    decode_tuple decode_columns set_column text_value insert bytes_eq xlog_end receive_keepalive
    final_ack
test_acknowledged = refl

process_all-Takes_example :
    (process_all deps no_filter protocol (xlogs protocol rounds) new_stream
      ≡ ((end_of rounds).0.stream, done))
    ↔ ((events : List (ChangeEvent ℕ)) × (decoded_events deps no_filter protocol
            (xlogs protocol rounds)
            new_stream
            []
          ≡ (with_log deps no_filter (end_of rounds).0.stream events, done))
        × Takes deps.handler events 0 (end_of rounds).0.stream.handled)
process_all-Takes_example =
    process_all-Takes deps no_filter protocol (xlogs protocol rounds) new_stream
      (end_of rounds).0.stream
