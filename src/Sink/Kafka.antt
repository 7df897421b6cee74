-- ===== src/Sink/Kafka.antt =====
-- internal/sink/kafka.go: a record per event, with its topic and its key. The encoders and the
-- producer are parameters.
pub mod Keys
pub mod Produced
use waltap.Prelude.{ℕ, Bool, true, false, Option, none, some, List, [], ◌∷◌, ◌++◌, Bytes, codes}
use waltap.Cdc.Event.{Value, Row, ChangeEvent, lookup}
use waltap.Sink.Webhook.{Marshalled, marshalled, unmarshalled}

pub record KafkaRecord : Type 0 where
  pub topic : Bytes
  pub key : Bytes
  pub value : Bytes

pub data KafkaError (E : Type 0) : Type 0 where
  encode_failed produce_failed : E → KafkaError E

pub record Kafka (V W E : Type 0) : Type 0 where
  pub topic_prefix : Bytes
  pub marshal : ChangeEvent V → Marshalled E
  pub marshal_id : Value V → Bytes
  pub produce : W → KafkaRecord → W × Option E

module _ {V W E : Type 0} (kafka : Kafka V W E) where
  unfoldable pub topic_of : ChangeEvent V → Bytes
  topic_of event = kafka.topic_prefix ++ b'.' ∷ (event.schema ++ b'.' ∷ event.table)

  -- The row that names the key: the new one, or else the old one.
  abbrev pub key_row : ChangeEvent V → Option (Row V)
  key_row event = elim event.new [ none ↦ event.old | some row ↦ some row ]

  abbrev pub fallback_key : ChangeEvent V → Bytes
  fallback_key event = event.schema ++ b'.' ∷ (event.table ++ b'.' ∷ event.lsn)

  unfoldable pub build_key : ChangeEvent V → Bytes
  unfolding lookup
  build_key event = elim (key_row event) [
    | none ↦ fallback_key event
    | some row ↦ elim (lookup (codes "id") row) [
      | none ↦ fallback_key event
      | some id ↦ kafka.marshal_id id
    ]
  ]

  abbrev pub produced : W × Option E → W × Option (KafkaError E)
  produced (w, none) = (w, none)
  produced (w, some e) = (w, some (produce_failed e))

  unfoldable pub kafka_deliver : W → ChangeEvent V → W × Option (KafkaError E)
  unfolding topic_of build_key
  kafka_deliver w event = elim (kafka.marshal event) [
    | unmarshalled e ↦ (w, some (encode_failed e))
    | marshalled value ↦
        produced (
          kafka.produce w (record { topic = topic_of event; key = build_key event; value = value }))
  ]
