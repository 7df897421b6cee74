-- ===== src/Sink/Retry.antt =====
-- internal/sink/retry.go: delivery with retries. What the sink behind it, the failure handler and
-- the world around them keep is a state of type `W`; a nil error is `none`.
pub mod Courses
pub mod Parked
pub mod Backoff
pub mod Kept
pub mod Bounds
use waltap.Prelude.{
  ℕ, zero, suc, ◌+◌, ◌*◌, ◌^◌, Bool, true, false, Option, none, some, ltb, if◌then◌else◌,
}

-- How a delivery ends; a crash is a run-time panic.
pub data Answer (E : Type 0) : Type 0 where
  delivered : Answer E
  cancelled_retry : E → Answer E
  cancelled_wait : Answer E
  refused : E → Answer E
  crashed : Answer E

pub record RetrySink (W A E : Type 0) : Type 0 where
  pub inner : W → A → W × Option E
  pub max_attempts : ℕ
  pub base_delay : ℕ
  pub max_delay : ℕ
  pub on_failure : W → A → Option E → W × Answer E

-- What the attempts meet, by their number: whether the context is cancelled behind a failure, and
-- whether a delay passes before it is. `out_of_range` converts a float64 from 2^63 on, which Go
-- leaves to the machine, and `jitter` scales a delay by a random factor; a negative duration, which
-- is not waited for, is 0.
pub record Chances : Type 0 where
  pub cancelled : ℕ → Bool
  pub waited : ℕ → ℕ → Bool
  pub out_of_range : ℕ → ℕ
  pub jitter : ℕ → ℕ → ℕ

-- The world, and the counters of `metrics.RetriesTotal`.
pub record Retried (W : Type 0) : Type 0 where
  pub world : W
  pub attempts : ℕ
  pub successes : ℕ
  pub exhausted : ℕ

unfoldable pub backoff : (ℕ → ℕ) → ℕ → ℕ → ℕ → ℕ
backoff out_of_range base max attempt =
    let exact = base * 2 ^ attempt in
    let delay = if ltb exact (2 ^ 63) then exact else out_of_range exact in
    if ltb max delay then max else delay

module _ {W : Type 0} where
  abbrev pub count_attempt : Retried W → W → Retried W
  count_attempt s w = record s { world = w; attempts = s.attempts + 1 }

  abbrev pub count_success : ℕ → Retried W → W → Retried W
  count_success zero s w = record s { world = w }
  count_success (suc attempt) s w = record s { world = w; successes = s.successes + 1 }

  -- Behind the loop.
  abbrev pub exhaust : {E : Type 0} → Retried W → W × Answer E → Retried W × Answer E
  exhaust s (w, answer) = (record s { world = w; exhausted = s.exhausted + 1 }, answer)

abbrev pub last_error : {E : Type 0} → Option E → Option E → Option E
last_error last none = last
last_error last (some e) = some e

module _ {W A E : Type 0} (sink : RetrySink W A E) (chances : Chances) (event : A) where
  -- Behind the inner sink's answer; `next` is the rest of the loop.
  unfoldable pub after_attempt :
      (Retried W → Retried W × Answer E) → ℕ → Retried W → W × Option E → Retried W × Answer E
  unfolding backoff
  after_attempt next attempt s (w, none) = (count_success attempt s w, delivered)
  after_attempt next attempt s (w, some e) =
      let delay = backoff chances.out_of_range sink.base_delay sink.max_delay attempt in
      if chances.cancelled attempt
      then (count_attempt s w, cancelled_retry e)
      else if chances.waited attempt (chances.jitter attempt delay)
      then next (count_attempt s w)
      else (count_attempt s w, cancelled_wait)

  -- The loop, with the number of attempts that are left.
  unfoldable pub retry_loop : ℕ → ℕ → Option E → Retried W → Retried W × Answer E
  unfolding after_attempt
  retry_loop zero attempt last s = exhaust s (sink.on_failure s.world event last)
  retry_loop (suc left) attempt last s =
      let answer = sink.inner s.world event in
      after_attempt (retry_loop left (suc attempt) (last_error last answer.1)) attempt s answer

  unfoldable pub deliver : Retried W → Retried W × Answer E
  unfolding retry_loop
  deliver s = retry_loop sink.max_attempts 0 none s
