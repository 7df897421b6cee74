-- ===== src/Sink/ClientTests.antt =====
-- internal/sink: the theorems on the webhooks, Kafka and the chain of sinks at concrete inputs.
use waltap.Prelude.{
  Bytes, bytes_eq, ◌↔◌, ℕ, ◌+◌, ◌≡◌, refl, true, false, Option, none, some, List, [], ◌∷◌, codes,
}
use waltap.Sink.Retry.{
  Answer, delivered, crashed, RetrySink, Chances, Retried, backoff, retry_loop, exhaust,
  count_success, after_attempt,
}
use waltap.Sink.Retry
use waltap.Sink.Dlq.{Dlq}
use waltap.Cdc.Event.{decoded, Row, ChangeEvent, lookup}
use waltap.Sink.Metrics.{Metered, metered_deliver}
use waltap.Sink.Webhook.{
  Marshalled, marshalled, Http, responded, PostError, post, webhook_deliver, webhook_deliver_batch,
}
use waltap.Sink.Webhook.Posted.{Posted, webhooks-Posted}
use waltap.Sink.Chain.{chain}
use waltap.Cdc.Decode.{decimal}

abbrev chances : Chances
chances = record {
  cancelled = λ n. false;
  waited = λ n d. true;
  out_of_range = λ n. 0;
  jitter = λ n d. d;
}

abbrev start_state : Retried (ℕ × List ℕ)
start_state = record { world = (0, []); attempts = 0; successes = 0; exhausted = 0 }

abbrev row_of : Bytes → Option (Row ℕ)
row_of column = some ((column, decoded 5) ∷ [])

abbrev update : Bytes → Bytes → ChangeEvent ℕ
update column lsn = record {
  action = codes "UPDATE";
  schema = codes "public";
  table = codes "t";
  new = row_of column;
  old = none;
  timestamp = 4;
  lsn = lsn;
  xid = 1;
}

abbrev removal : ChangeEvent ℕ
removal = record (update (codes "id") (codes "2")) {
  action = codes "DELETE";
  new = none;
  old = row_of (codes "id");
}

id_found : lookup {V = ℕ} (codes "id") ((codes "id", decoded 5) ∷ []) ≡ some (decoded 5)
unfolding lookup bytes_eq
id_found = refl

-- A receiver that counts its requests and answers 204.
abbrev http : Http ℕ ℕ
http = record { new_request = λ url. none; send = λ w r. (w + 1, responded 204) }

abbrev encode : ChangeEvent ℕ → Marshalled ℕ
encode event = marshalled (codes "{}")

webhooks-Posted_example :
    ((webhook_deliver http (codes "u") encode 0 removal ≡ (1, none))
      ↔ Posted http
          (codes "u")
          (encode removal)
          ((codes "X-PGCDC-Action", codes "DELETE")
            ∷ (codes "X-PGCDC-Table", codes "public.t")
            ∷ [])
          0
          1)
    × ((webhook_deliver_batch http (codes "u") (λ es. encode removal) 0 (removal ∷ []) ≡ (1, none))
        ↔ Posted http
            (codes "u")
            (encode removal)
            ((codes "X-PGCDC-Batch-Size", decimal 1) ∷ [])
            0
            1)
webhooks-Posted_example =
    webhooks-Posted http (codes "u") encode (λ es. encode removal) removal (removal ∷ []) 0 1

abbrev letters : Dlq (List ℕ) (ChangeEvent ℕ) (PostError ℕ)
letters = record { encode = λ f entry. (1 ∷ f, none); error_text = λ e. codes "no"; now = λ f. 0 }

abbrev unused : Metered (Retried (ℕ × List ℕ))
unused = record { world = start_state; lag = none; events_total = [] }

abbrev used : Metered (Retried (ℕ × List ℕ))
used = record {
  world = record start_state { world = (1, []) };
  lag = some 4;
  events_total = (codes "DELETE", codes "t", codes "delivered") ∷ [];
}

chain_posts :
    chain http (codes "u") encode letters 5 100 1000 chances (λ t. t) unused removal
    ≡ (used, delivered)
unfolding metered_deliver Retry.deliver retry_loop after_attempt webhook_deliver post
chain_posts = refl
