-- ===== src/Sink/Tests.antt =====
-- internal/sink: the theorems at concrete inputs, and runs of the code.
use waltap.Prelude.{
  ◌==◌, ℕ, ◌+◌, ◌<◌, ◌≡◌, refl, true, false, Option, none, some, List, [], ◌∷◌, ◌++◌, length, arith,
  All, codes, ltb, if◌then◌else◌,
}
use waltap.Sink.Retry.{
  Answer, delivered, crashed, RetrySink, Chances, Retried, backoff, retry_loop, exhaust,
  count_success, after_attempt,
}
use waltap.Sink.Retry
use waltap.Sink.Retry.Courses.{Fails, no_more, fails, counted, deliver-recovers}
use waltap.Sink.Retry.Parked.{with_dlq}
use waltap.Sink.Retry.Bounds.{counting, Called, deliver-Called}
use waltap.Sink.Dlq.{Dlq, handler}
use waltap.Sink.Batch.{
  Flight, Batch, by_size, by_time, new_batch, fire, flush_timed, start_timer, append_event,
  stop_timer, launch, land, fail_batch, remove,
}
use waltap.Sink.Batch
use waltap.Sink.Batch.Steps.{delivers, Reaches, start, next}
use waltap.Sink.Batch.Taken.{flatten, IsBatch, limit}
use waltap.Sink.Batch.Held.{Reaches-held}
use waltap.Sink.Batch.Settled.{count, count_flights}
use waltap.Sink.Batch.Pending.{Pending, Reaches-Covered}
use waltap.Sink.Batch.Loss.{Lost, timed_failure-Lost}

-- An endpoint that is up from its third call on; an event is its number.
abbrev flaky : ℕ → ℕ → ℕ × Option ℕ
flaky w event = (w + 1, if ltb w 2 then some w else none)

abbrev chances : Chances
chances = record {
  cancelled = λ n. false;
  waited = λ n d. true;
  out_of_range = λ n. 0;
  jitter = λ n d. d;
}

abbrev retries : ℕ → RetrySink ℕ ℕ ℕ
retries n = record {
  inner = flaky;
  max_attempts = n;
  base_delay = 100;
  max_delay = 1000;
  on_failure = λ w event last. (w, delivered);
}

abbrev fresh : Retried ℕ
fresh = record { world = 0; attempts = 0; successes = 0; exhausted = 0 }

two_fail : Fails (retries 5) chances 7 2 0 0 none 2 (some 1)
two_fail = fails refl refl refl (fails refl refl refl no_more)

deliver-recovers_example :
    Retry.deliver (retries 5) chances 7 fresh
    ≡ (count_success 2 (counted (retries 5) chances 7 fresh 2 2) 3, delivered)
deliver-recovers_example =
    deliver-recovers (retries 5) chances 7 2 fresh 2 3 (some 1) (omega arith) two_fail refl

abbrev fresh_counted : Retried (ℕ × ℕ)
fresh_counted = record { world = (0, 0); attempts = 0; successes = 0; exhausted = 0 }

deliver-Called_example :
    Called
      (retries 5)
      chances
      7
      5
      fresh_counted
      (Retry.deliver (counting (retries 5)) chances 7 fresh_counted).0
deliver-Called_example = deliver-Called (retries 5) chances 7 fresh_counted

-- A dead-letter file that holds the events.
abbrev dlq : Dlq (List ℕ) ℕ ℕ
dlq = record {
  encode = λ f entry. (entry.event ∷ f, none);
  error_text = λ e. codes "no";
  now = λ f. 0;
}

abbrev start_state : Retried (ℕ × List ℕ)
start_state = record { world = (0, []); attempts = 0; successes = 0; exhausted = 0 }

abbrev parked : Retried (ℕ × List ℕ)
parked = record { world = (2, 7 ∷ []); attempts = 2; successes = 0; exhausted = 1 }

parks_event :
    Retry.deliver (with_dlq flaky dlq 2 100 1000) chances 7 start_state ≡ (parked, delivered)
unfolding Retry.deliver retry_loop after_attempt handler
parks_event = refl

abbrev seven : List ℕ
seven = 7 ∷ []

-- A sink of at most two events: one event, the timer, and a flush that fails.
abbrev one_event : Batch ℕ ℕ
one_event = Batch.deliver 2 1 7 new_batch

abbrev in_buffer : Batch ℕ ℕ
in_buffer = record new_batch {
  buffer = 7 ∷ [];
  timer = some 0;
  flush_ctx = some 1;
  created = 1;
  armed = 0 ∷ [];
}

one_event_buffered : one_event ≡ in_buffer
unfolding Batch.deliver append_event start_timer
one_event_buffered = refl

abbrev pair : List ℕ
pair = 7 ∷ 8 ∷ []

abbrev both : List (List ℕ)
both = pair ∷ []

seven-Reaches : Reaches 2 seven [] one_event
seven-Reaches = next start (delivers 1 7 new_batch)

pair-Reaches : Reaches 2 pair both (Batch.deliver 2 1 8 in_buffer)
pair-Reaches = next (rw one_event_buffered at seven-Reaches) (delivers 1 8 in_buffer)

Reaches-held_example :
    (flatten both ++ (Batch.deliver 2 1 8 in_buffer).buffer ≡ pair)
    × All (IsBatch 2) both
    × (length (Batch.deliver 2 1 8 in_buffer).buffer < limit 2)
    × (count (λ xs. length xs == 2) both
        ≡ count_flights (λ xs. length xs == 2) (Batch.deliver 2 1 8 in_buffer).in_flight
          + (count (λ xs. length xs == 2) (Batch.deliver 2 1 8 in_buffer).delivered
              + (count (λ xs. length xs == 2) (Batch.deliver 2 1 8 in_buffer).reported
                  + count (λ xs. length xs == 2) (Batch.deliver 2 1 8 in_buffer).logged)))
Reaches-held_example =
    Reaches-held (λ xs. length xs == 2) 2 pair both (Batch.deliver 2 1 8 in_buffer) pair-Reaches

Reaches-Covered_example : Pending in_buffer
Reaches-Covered_example =
    Reaches-Covered 2 seven [] in_buffer (rw one_event_buffered at seven-Reaches) (λ e. cc)

timed_failure-Lost_example :
    Lost {C = ℕ} seven new_batch (flush_timed (fire 0 (Batch.deliver 2 1 7 new_batch)))
timed_failure-Lost_example = timed_failure-Lost 2 0 1 7 new_batch refl
