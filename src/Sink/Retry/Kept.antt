-- ===== src/Sink/Retry/Kept.antt =====
-- What a delivery leaves alone, however it ends.
use waltap.Prelude.{zero, suc, ℕ, inl, inr, Option, none, some, Bool-cases}
use waltap.Sink.Retry.{
  Answer, RetrySink, Chances, Retried, count_success, count_attempt, after_attempt, last_error,
  retry_loop, deliver,
}
use waltap.Sink.Retry.Courses.{delay_of}

module _ {W A E : Type 0} (sink : RetrySink W A E) (chances : Chances) (event : A) (Q : W → Type 0)
    (tried : (w : W) → Q w → Q (sink.inner w event).0)
    (failed : (w : W) (last : Option E) → Q w → Q (sink.on_failure w event last).0) where
  count_success-kept :
      (attempt : ℕ) (s : Retried W) (w : W) → Q w → Q (count_success attempt s w).world
  count_success-kept zero s w h = h
  count_success-kept (suc attempt) s w h = h

  after_attempt-kept :
      (next : Retried W → Retried W × Answer E)
      → ((t : Retried W) → Q t.world → Q (next t).0.world)
      → (attempt : ℕ) (s : Retried W) (answer : W × Option E) → Q answer.0
      → Q (after_attempt sink chances event next attempt s answer).0.world
  unfolding after_attempt
  after_attempt-kept next later attempt s (w, none) h = count_success-kept attempt s w h
  after_attempt-kept next later attempt s (w, some f) h =
      elim (Bool-cases (chances.cancelled attempt)) [
        | inl c ↦ rw (c, after_attempt) h
        | inr c ↦ elim (Bool-cases (chances.waited attempt (delay_of sink chances event attempt))) [
          | inl d ↦ rw (c, after_attempt, d) (later (count_attempt s w) h)
          | inr d ↦ rw (c, after_attempt, d) h
        ]
      ]

  retry_loop-kept :
      (left attempt : ℕ) (last : Option E) (s : Retried W)
      → Q s.world
      → Q (retry_loop sink chances event left attempt last s).0.world
  unfolding retry_loop
  retry_loop-kept zero attempt last s h = failed s.world last h
  retry_loop-kept (suc left) attempt last s h =
      let answer = sink.inner s.world event in
      after_attempt-kept
        (retry_loop sink chances event left (suc attempt) (last_error last answer.1))
        (λ t q. retry_loop-kept left (suc attempt) (last_error last answer.1) t q) attempt s answer
        (tried s.world h)

  -- What the inner sink and the failure handler keep is kept by a delivery.
  pub deliver-kept : (s : Retried W) → Q s.world → Q (deliver sink chances event s).0.world
  unfolding deliver
  deliver-kept s h = retry_loop-kept sink.max_attempts 0 none s h
