-- ===== src/Sink/KafkaTests.antt =====
-- internal/cdc with internal/sink/kafka.go: the theorem at a concrete input.
use waltap.Prelude.{ℕ, ◌+◌, ◌≡◌, refl, none, List, [], ◌∷◌, ◌++◌, codes, bytes_eq}
use waltap.Cdc.Event.{ChangeEvent, insert}
use waltap.Cdc.Filter.{match_event, passes}
use waltap.Cdc.Decode.{decode_tuple, decode_columns, set_column, text_value}
use waltap.Cdc.Stream.{
  Message, begin, commit, relation, Deps, Stream, done, process, process_message, change,
  deliver_if_match, find_relation,
}
use waltap.Cdc.Stream
use waltap.Cdc.Stream.Decoded.{with_log}
use waltap.Cdc.Loop.{
  Loop, Exit, running, run_loop, loop_round, receive, receive_copy_data, receive_xlog, periodic_ack,
  xlog_end,
}
use waltap.Cdc.Loop.Acks.{xlogs}
use waltap.Cdc.Loop.HandedOver.{decoded_events}
use waltap.Sink.Kafka.{KafkaRecord, KafkaError, Kafka, kafka_deliver}
use waltap.Sink.Kafka.Produced.{kafka_handler, AreRecordsOf, run_loop-AreRecordsOf}
use waltap.Sink.PipelineTests.{encode, parse, no_filter, protocol, rounds}

-- A producer that counts its records.
abbrev kafka : Kafka ℕ ℕ ℕ
kafka = record {
  topic_prefix = codes "cdc";
  marshal = encode;
  marshal_id = λ id. codes "id";
  produce = λ n r. (n + 1, none);
}

abbrev kafka_deps : Deps ℕ (ℕ × List KafkaRecord) (KafkaError ℕ)
kafka_deps = record {
  parse = parse;
  lsn_string = λ n. n ∷ [];
  codecs = λ oid. none;
  handler = kafka_handler kafka;
}

abbrev kafka_loop : Loop (ℕ × List KafkaRecord)
kafka_loop = record {
  stream = record { relations = []; current_xid = 0; current_commit_time = 0; handled = (0, []) };
  last_received = 0;
  last_acked = 0;
  next_ack_time = 10;
  acks = [];
}

abbrev kafka_end : Loop (ℕ × List KafkaRecord) × Exit (KafkaError ℕ)
kafka_end = run_loop kafka_deps no_filter protocol rounds kafka_loop

kafka_running : kafka_end ≡ (kafka_end.0, running)
unfolding run_loop loop_round periodic_ack receive receive_copy_data receive_xlog process_message
    process change Stream.deliver deliver_if_match match_event passes find_relation decode_tuple
    decode_columns set_column text_value insert bytes_eq xlog_end kafka_deliver
kafka_running = refl

run_loop-AreRecordsOf_example :
    (events : List (ChangeEvent ℕ)) × (records : List KafkaRecord) × (decoded_events kafka_deps
        no_filter protocol
        (xlogs protocol rounds)
        kafka_loop.stream
        []
      ≡ (with_log kafka_deps no_filter kafka_end.0.stream events, done))
    × AreRecordsOf kafka events records
    × (kafka_end.0.stream.handled.1 ≡ [] ++ records)
run_loop-AreRecordsOf_example =
    run_loop-AreRecordsOf kafka kafka_deps no_filter protocol rounds kafka_loop kafka_end.0
      kafka_running
