-- ===== src/Sink/Lifecycle.antt =====
-- internal/sink: how the sinks are made and closed (the constructors and `Close` of metrics.go,
-- retry.go, batch.go, dlq.go, webhook.go, webhook_batch.go and kafka.go). Files, HTTP clients and the
-- client of franz-go are parameters; durations are in nanoseconds.
use waltap.Prelude.{ℕ, ◌*◌, Bool, true, Option, none, some, List, [], ◌∷◌, Bytes, ◌⊎◌, inl, inr}
use waltap.Cdc.Filter.{split_comma}

-- A method `Close` on a world of type `W`.
abbrev pub Closer : Type 0 → Type 0 → Type 0
Closer W E = W → W × Option E

module _ {W E : Type 0} where
  unfoldable pub retry_close : Closer W E → Closer W E
  retry_close inner w = inner w

  unfoldable pub metrics_close : Closer W E → Closer W E
  metrics_close inner w = inner w

  -- `CloseIdleConnections` and the Kafka client's `Close` return nothing.
  unfoldable pub webhook_close : (W → W) → Closer W E
  webhook_close close_idle w = (close_idle w, none)

  unfoldable pub kafka_close : (W → W) → Closer W E
  kafka_close close_client w = (close_client w, none)

  unfoldable pub stdout_close : Closer W E
  stdout_close w = (w, none)

  module _ {A : Type 0} where
    -- `BatchSink.Close`, behind the mutex: the error of the last delivery is only logged.
    unfoldable pub batch_close : (W → List A → W × Option E) → Closer W E → List A → Closer W E
    batch_close deliver_batch inner [] w = inner w
    batch_close deliver_batch inner (x ∷ xs) w = inner (deliver_batch w (x ∷ xs)).0

-- The options of the client; the acknowledgments required are those of all in-sync replicas.
pub record KafkaOptions : Type 0 where
  pub seed_brokers : List Bytes
  pub producer_linger : ℕ
  pub batch_max_bytes : ℕ
  pub all_isr_acks : Bool

pub data KafkaStart (C E : Type 0) : Type 0 where
  connected : (client : C) → (topic_prefix : Bytes) → KafkaStart C E
  client_failed : E → KafkaStart C E
  -- the client is closed
  ping_failed : (closed : C) → E → KafkaStart C E

module _ {C E : Type 0} (new_client : KafkaOptions → E ⊎ C) (ping : C → Option E) where
  abbrev kafka_pinged : Bytes → C → Option E → KafkaStart C E
  kafka_pinged topic_prefix client none = connected client topic_prefix
  kafka_pinged topic_prefix client (some e) = ping_failed client e

  abbrev kafka_made : Bytes → E ⊎ C → KafkaStart C E
  kafka_made topic_prefix (inl e) = client_failed e
  kafka_made topic_prefix (inr client) = kafka_pinged topic_prefix client (ping client)

  unfoldable pub new_kafka_sink : Bytes → Bytes → KafkaStart C E
  unfolding split_comma
  new_kafka_sink brokers topic_prefix = kafka_made topic_prefix (
      new_client (record {
        seed_brokers = split_comma [] brokers;
        producer_linger = 10_000_000;
        batch_max_bytes = 64 * 1024;
        all_isr_acks = true;
      }))

pub data OpenFlag : Type 0 where
  o_create o_write_only o_append : OpenFlag

pub record DlqSink (F : Type 0) : Type 0 where
  pub file : F
  pub path : Bytes

module _ {F E : Type 0} where
  abbrev dlq_opened : Bytes → E ⊎ F → E ⊎ DlqSink F
  dlq_opened path (inl e) = inl e
  dlq_opened path (inr file) = inr (record { file = file; path = path })

  -- The mode is 0644.
  unfoldable pub new_dlq_sink : (Bytes → List OpenFlag → ℕ → E ⊎ F) → Bytes → E ⊎ DlqSink F
  new_dlq_sink open_file path =
      dlq_opened path (open_file path (o_create ∷ o_write_only ∷ o_append ∷ []) 420)

  unfoldable pub dlq_close : (F → Option E) → DlqSink F → Option E
  dlq_close close_file d = close_file d.file

-- A webhook sink: its URL, and the timeout of its client.
pub record WebhookSink : Type 0 where
  pub url : Bytes
  pub timeout : ℕ

unfoldable pub new_webhook_sink : Bytes → WebhookSink
new_webhook_sink url = record { url = url; timeout = 10_000_000_000 }

unfoldable pub new_webhook_batch_sink : Bytes → WebhookSink
new_webhook_batch_sink url = record { url = url; timeout = 30_000_000_000 }
