-- ===== src/Sink/ServerTests.antt =====
-- internal/sink and cmd: the test servers, standard output and the constructors at concrete inputs.
use waltap.Prelude.{
  ℕ, ◌+◌, ◌≡◌, refl, true, false, Option, none, some, List, [], ◌∷◌, map, arith, Bytes, codes, inr,
  index_byte,
}
use waltap.Cdc.Event.{ChangeEvent}
use waltap.Cdc.Filter.{split_comma}
use waltap.Cdc.Construct.{separator}
use waltap.Sink.Retry.{Answer, delivered, Chances, Retried, after_attempt, retry_loop}
use waltap.Sink.Retry
use waltap.Sink.Webhook.{Marshalled, marshalled, PostError}
use waltap.Sink.TestServers.{flaky_sink, flaky_server-delivered}
use waltap.Sink.Batch.Taken.{flatten}
use waltap.Sink.Batch.{new_batch}
use waltap.Sink.Stdout.{BatchOutput}
use waltap.Sink.Stdout.Batched.{batch_events, print_batches, print_each, batched-stdout}
use waltap.Sink.Lifecycle.{
  new_kafka_sink, ping_failed, batch_close, retry_close, metrics_close, webhook_close,
}

abbrev chances : Chances
chances = record {
  cancelled = λ n. false;
  waited = λ n d. true;
  out_of_range = λ n. 0;
  jitter = λ n d. d;
}

abbrev encode : ChangeEvent ℕ → Marshalled ℕ
encode event = marshalled (codes "{}")

abbrev insertion : ChangeEvent ℕ
insertion = record {
  action = codes "INSERT";
  schema = codes "public";
  table = codes "t";
  new = none;
  old = none;
  timestamp = 0;
  lsn = [];
  xid = 0;
}

abbrev wrap : ChangeEvent ℕ → Option (PostError ℕ) → PostError ℕ
wrap event none = PostError.bad_status 0
wrap event (some e) = e

test_flaky_server :
    Retry.deliver
      (flaky_sink (codes "u") encode wrap 5)
      chances
      insertion
      (record { world = 0; attempts = 0; successes = 0; exhausted = 0 })
    ≡ (record { world = 3; attempts = 0 + 2; successes = 0 + 1; exhausted = 0 }, delivered)
test_flaky_server =
    flaky_server-delivered (codes "u") encode wrap 5 chances insertion (codes "{}") 0 0 0
      (omega arith) refl (λ n. refl) (λ n d. refl)

batched-stdout_example :
    flatten (
      map
        (λ (o : BatchOutput ℕ). o.events)
        (print_batches
          ([], [])
          (batch_events 2 tt (5 ∷ 6 ∷ 7 ∷ []) (new_batch {C = Unit {0}})).delivered).1)
    ≡ print_each [] (5 ∷ 6 ∷ 7 ∷ [])
batched-stdout_example = batched-stdout 2 tt (5 ∷ 6 ∷ 7 ∷ [])

test_conn_str :
    (separator (codes "postgres://h/db") ≡ codes "?")
    × (separator (codes "postgres://h/db?sslmode=disable") ≡ codes "&")
unfolding separator index_byte
test_conn_str = (refl, refl)

test_kafka_closed :
    new_kafka_sink {C = List Bytes} {E = ℕ}
      (λ o. inr o.seed_brokers)
      (λ c. some 1)
      (codes "a:1,b:2")
      (codes "pgcdc")
    ≡ ping_failed (codes "a:1" ∷ codes "b:2" ∷ []) 1
unfolding new_kafka_sink split_comma
test_kafka_closed = refl

-- The error of the last batch is dropped: `Close` returns what the inner sink's does.
test_batch_close :
    batch_close {W = ℕ} {E = ℕ} {A = ℕ}
      (λ w batch. (w + 1, some 9))
      (λ w. (w + 10, none))
      (5 ∷ [])
      0
    ≡ (11, none)
unfolding batch_close
test_batch_close = refl

test_close_chain :
    metrics_close {W = ℕ} {E = ℕ} (retry_close (webhook_close (λ w. w + 1))) 0 ≡ (1, none)
unfolding metrics_close retry_close webhook_close
test_close_chain = refl
