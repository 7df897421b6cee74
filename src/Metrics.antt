-- ===== src/Metrics.antt =====
-- internal/metrics/metrics.go: the collectors that the program registers. A bucket's bound is in
-- thousandths.
use waltap.Prelude.{ℕ, List, [], ◌∷◌, Bytes, codes}

pub data Kind : Type 0 where
  counter_vec histogram_vec gauge histogram : Kind

pub record Collector : Type 0 where
  pub kind : Kind
  pub name : Bytes
  pub help : Bytes
  pub labels : List Bytes
  pub buckets : List ℕ

abbrev pub counter_of : Bytes → Bytes → List Bytes → Collector
counter_of name help labels = record {
  kind = counter_vec;
  name = name;
  help = help;
  labels = labels;
  buckets = [];
}

abbrev pub events_total : Collector
events_total =
    counter_of (codes "pgcdc_events_total") (codes "Total number of change events processed.")
      (codes "action" ∷ codes "table" ∷ codes "status" ∷ [])

abbrev pub delivery_duration : Collector
delivery_duration = record {
  kind = histogram_vec;
  name = codes "pgcdc_delivery_duration_seconds";
  help = codes "Time taken to deliver a change event to the sink.";
  labels = codes "sink" ∷ [];
  buckets = 1 ∷ 5 ∷ 10 ∷ 25 ∷ 50 ∷ 100 ∷ 250 ∷ 500 ∷ 1_000 ∷ 5_000 ∷ 10_000 ∷ 30_000 ∷ [];
}

abbrev pub replication_lag : Collector
replication_lag = record {
  kind = gauge;
  name = codes "pgcdc_replication_lag_seconds";
  help = codes "Seconds between transaction commit time and processing time.";
  labels = [];
  buckets = [];
}

abbrev pub retries_total : Collector
retries_total =
    counter_of (codes "pgcdc_retries_total") (codes "Total retry attempts for event delivery.")
      (codes "outcome" ∷ [])

abbrev pub snapshot_rows_total : Collector
snapshot_rows_total =
    counter_of (codes "pgcdc_snapshot_rows_total")
      (codes "Total rows emitted during initial snapshot.") (codes "table" ∷ [])

abbrev pub batch_flush_total : Collector
batch_flush_total =
    counter_of (codes "pgcdc_batch_flush_total") (codes "Total batch flushes by trigger type.")
      (codes "trigger" ∷ [])

abbrev pub batch_size : Collector
batch_size = record {
  kind = histogram;
  name = codes "pgcdc_batch_size";
  help = codes "Number of events per batch flush.";
  labels = [];
  buckets = 1_000 ∷ 5_000 ∷ 10_000 ∷ 25_000 ∷ 50_000 ∷ 100_000 ∷ 250_000 ∷ 500_000 ∷ 1_000_000 ∷ [];
}

abbrev pub dlq_events_total : Collector
dlq_events_total =
    counter_of (codes "pgcdc_dlq_events_total")
      (codes "Total events written to the dead-letter queue.") (codes "table" ∷ [])

-- In the order of their registration.
abbrev pub collectors : List Collector
collectors =
    events_total ∷ delivery_duration ∷ replication_lag ∷ retries_total ∷ snapshot_rows_total
    ∷ batch_flush_total ∷ batch_size ∷ dlq_events_total ∷ []
