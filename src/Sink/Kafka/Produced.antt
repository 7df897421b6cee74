-- ===== src/Sink/Kafka/Produced.antt =====
-- internal/cdc and internal/sink/kafka.go together: the records that a stream with the Kafka sink
-- as its handler produces.
use waltap.Prelude.{
  ◌≡◌, refl, sym, ap, ◌∙◌, Option, none, some, List, [], ◌∷◌, ◌++◌, append-nil, append_assoc, Bytes,
}
use waltap.Cdc.Event.{ChangeEvent}
use waltap.Cdc.Event.Takes.{Takes, takes_none, takes}
use waltap.Cdc.Filter.{Filter}
use waltap.Cdc.Stream.{Deps, done}
use waltap.Cdc.Stream.Decoded.{with_log}
use waltap.Cdc.Loop.{Protocol, Round, Loop, running, run_loop}
use waltap.Cdc.Loop.Acks.{xlogs}
use waltap.Cdc.Loop.HandedOver.{decoded_events, run_loop-Takes}
use waltap.Sink.Webhook.{Marshalled, marshalled, unmarshalled}
use waltap.Sink.Kafka.Keys.{IsKeyOf, build_key-IsKeyOf}
use waltap.Sink.Kafka.{
  KafkaRecord, KafkaError, encode_failed, Kafka, topic_of, build_key, produced, kafka_deliver,
}

-- The same sink, with the records that are produced beside the producer's state.
abbrev pub recording_kafka : {V W E : Type 0} → Kafka V W E → Kafka V (W × List KafkaRecord) E
recording_kafka kafka = record {
  topic_prefix = kafka.topic_prefix;
  marshal = kafka.marshal;
  marshal_id = kafka.marshal_id;
  produce = λ (w, records) r. (((kafka.produce w r).0, records ++ r ∷ []), (kafka.produce w r).1);
}

module _ {V W E : Type 0} (kafka : Kafka V W E) where
  abbrev pub kafka_handler :
      W × List KafkaRecord → ChangeEvent V → (W × List KafkaRecord) × Option (KafkaError E)
  kafka_handler w event = kafka_deliver (recording_kafka kafka) w event

  -- The record of an event: its topic, its key, and what it is encoded to.
  abbrev pub IsRecordOf : ChangeEvent V → KafkaRecord → Type 0
  IsRecordOf event r =
      (r.topic ≡ kafka.topic_prefix ++ b'.' ∷ (event.schema ++ b'.' ∷ event.table))
      × IsKeyOf kafka event r.key
      × (kafka.marshal event ≡ marshalled r.value)

  -- Records and events, one for the other, in order.
  pub data AreRecordsOf : List (ChangeEvent V) → List KafkaRecord → Type 0 where
    no_records : AreRecordsOf [] []
    one_more :
        {event : ChangeEvent V} {events : List (ChangeEvent V)} {r : KafkaRecord}
        {records : List KafkaRecord}
        → IsRecordOf event r
        → AreRecordsOf events records
        → AreRecordsOf (event ∷ events) (r ∷ records)

  produced-state :
      {X : Type 0} (k : Kafka V X E) (x : X × Option E) (w : X) → produced k x ≡ (w, none) → x.0 ≡ w
  produced-state {X} k (v, none) w e = ap (λ (z : X × Option (KafkaError E)). z.0) e
  produced-state k (v, some f) w e = absurd (cc)

  record_of : ChangeEvent V → Bytes → KafkaRecord
  record_of event value = record {
    topic = topic_of kafka event;
    key = build_key kafka event;
    value = value;
  }

  handler_encoded :
      (w : W × List KafkaRecord) (event : ChangeEvent V) (value : Bytes)
      → kafka.marshal event ≡ marshalled value
      → kafka_handler w event
        ≡ produced
            (recording_kafka kafka)
            ((recording_kafka kafka).produce w (record_of event value))
  unfolding kafka_deliver topic_of build_key record_of
  handler_encoded w event value q = rw (q, kafka_deliver)

  handler_refused :
      (w : W × List KafkaRecord) (event : ChangeEvent V) (f : E)
      → kafka.marshal event ≡ unmarshalled f
      → kafka_handler w event ≡ (w, some (encode_failed f))
  unfolding kafka_deliver
  handler_refused w event f q = rw (q, kafka_deliver)

  kafka_handler-IsRecordOf :
      (w w' : W × List KafkaRecord) (event : ChangeEvent V) (m : Marshalled E)
      → kafka.marshal event ≡ m
      → kafka_handler w event ≡ (w', none)
      → (r : KafkaRecord) × IsRecordOf event r × (w'.1 ≡ w.1 ++ r ∷ [])
  unfolding record_of topic_of
  kafka_handler-IsRecordOf w w' event (marshalled value) q e =
      let same =
        produced-state (recording_kafka kafka)
          ((recording_kafka kafka).produce w (record_of event value)) w'
          (sym (handler_encoded w event value q) ∙ e) in
      (
        record_of event value,
        (refl, build_key-IsKeyOf kafka event, q),
        sym (ap (λ (z : W × List KafkaRecord). z.1) same),
      )
  kafka_handler-IsRecordOf w w' event (unmarshalled f) q e =
      let bad = sym (handler_refused w event f q) ∙ e in absurd (cc)

  Takes-AreRecordsOf :
      (events : List (ChangeEvent V)) {w w' : W × List KafkaRecord}
      → Takes kafka_handler events w w'
      → (records : List KafkaRecord) × AreRecordsOf events records × (w'.1 ≡ w.1 ++ records)
  Takes-AreRecordsOf _ {w} takes_none = ([], no_records, sym (append-nil w.1))
  Takes-AreRecordsOf _ {w} (takes {event} {events} {h} {h'} answer more) =
      let (r, is, one) = kafka_handler-IsRecordOf h h' event (kafka.marshal event) refl answer in
      let (records, are, rest) = Takes-AreRecordsOf events more in
      (
        r ∷ records,
        one_more is are,
        rest ∙ ap (λ l. l ++ records) one ∙ append_assoc h.1 (r ∷ []) records,
      )

  -- While the stream runs with the Kafka sink as its handler, it has produced one record for each
  -- event that the log holds for it, in the order of the log and no other, on the topic of the
  -- prefix, the event's schema and its table, between dots, under the value of the column id in the
  -- new row, or in the old one where there is no new one, or without one under the event's schema,
  -- table and position, between dots, and with what the event is encoded to.
  pub run_loop-AreRecordsOf :
      (deps : Deps V (W × List KafkaRecord) (KafkaError E)) (filter : Filter) (protocol : Protocol)
      (rs : List Round) (l l' : Loop (W × List KafkaRecord))
      → run_loop (record deps { handler = kafka_handler }) filter protocol rs l ≡ (l', running)
      → (events : List (ChangeEvent V)) × (records : List KafkaRecord) × (decoded_events
            (record deps { handler = kafka_handler })
            filter
            protocol
            (xlogs protocol rs)
            l.stream
            []
          ≡ (with_log (record deps { handler = kafka_handler }) filter l'.stream events, done))
        × AreRecordsOf events records
        × (l'.stream.handled.1 ≡ l.stream.handled.1 ++ records)
  run_loop-AreRecordsOf deps filter protocol rs l l' e =
      let (events, decoded, taken) =
        run_loop-Takes (record deps { handler = kafka_handler }) filter protocol rs l l' e in
      let (records, are, all) = Takes-AreRecordsOf events taken in
      (events, records, decoded, are, all)
