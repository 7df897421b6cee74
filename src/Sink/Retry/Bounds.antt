-- ===== src/Sink/Retry/Bounds.antt =====
-- How often a delivery calls the sink behind it.
use waltap.Prelude.{ℕ, zero, suc, ◌+◌, ◌≤◌, inl, inr, Option, none, some, arith, Bool-cases}
use waltap.Sink.Retry.{
  Answer, RetrySink, Chances, Retried, count_attempt, count_success, after_attempt, last_error,
  retry_loop, deliver,
}
use waltap.Sink.Retry.Courses.{delay_of}

-- The same sink, with the number of calls of the one behind it beside the world.
abbrev pub counting : {W A E : Type 0} → RetrySink W A E → RetrySink (W × ℕ) A E
counting sink = record {
  inner = λ (w, n) event. (((sink.inner w event).0, n + 1), (sink.inner w event).1);
  max_attempts = sink.max_attempts;
  base_delay = sink.base_delay;
  max_delay = sink.max_delay;
  on_failure = λ (w, n) event last.
      (((sink.on_failure w event last).0, n), (sink.on_failure w event last).1);
}

-- One, if there are any.
abbrev pub at_least : ℕ → ℕ
at_least zero = 0
at_least (suc n) = 1

module _ {W A E : Type 0} (sink : RetrySink W A E) (chances : Chances) (event : A) where
  -- At most `left` calls from `s` to `t`, one of them at least if any is left, and all but the last
  -- one, or all, counted as failed attempts.
  abbrev pub Called : ℕ → Retried (W × ℕ) → Retried (W × ℕ) → Type 0
  Called left s t =
      (s.world.1 + at_least left ≤ t.world.1)
      × (t.world.1 ≤ s.world.1 + left)
      × (t.attempts + s.world.1 ≤ s.attempts + t.world.1)
      × (s.attempts + t.world.1 ≤ t.attempts + s.world.1 + 1)

  count_success-Called :
      (left attempt : ℕ) (s : Retried (W × ℕ)) (w : W)
      → Called (suc left) s (count_success attempt s (w, s.world.1 + 1))
  count_success-Called left zero s w = (omega arith, omega arith, omega arith, omega arith)
  count_success-Called left (suc attempt) s w = (omega arith, omega arith, omega arith, omega arith)

  after_attempt-Called :
      (next : Retried (W × ℕ) → Retried (W × ℕ) × Answer E) (left attempt : ℕ) (s : Retried (W × ℕ))
      (w : W) (answer : Option E)
      → ((t : Retried (W × ℕ)) → Called left t (next t).0)
      → Called
          (suc left)
          s
          (after_attempt
            (counting sink)
            chances
            event
            next
            attempt
            s
            ((w, s.world.1 + 1), answer)).0
  unfolding after_attempt
  after_attempt-Called next left attempt s w none h = count_success-Called left attempt s w
  after_attempt-Called next left attempt s w (some f) h =
      let tried = count_attempt s (w, s.world.1 + 1) in
      elim (Bool-cases (chances.cancelled attempt)) [
        | inl c ↦ rw (c, after_attempt) (omega arith, omega arith, omega arith, omega arith)
        | inr c ↦
            elim (Bool-cases
              (chances.waited attempt (delay_of (counting sink) chances event attempt))) [
                | inl d ↦
                    let (later, most, least, all) = h tried in
                    rw (c, after_attempt, d)
                      (
                        omega (arith, later),
                        omega (arith, most),
                        omega (arith, least),
                        omega (arith, all),
                      )
                | inr d ↦
                    rw (c, after_attempt, d) (omega arith, omega arith, omega arith, omega arith)
              ]
      ]

  retry_loop-Called :
      (left attempt : ℕ) (last : Option E) (s : Retried (W × ℕ))
      → Called left s (retry_loop (counting sink) chances event left attempt last s).0
  unfolding retry_loop
  retry_loop-Called zero attempt last s = (omega arith, omega arith, omega arith, omega arith)
  retry_loop-Called (suc left) attempt last s =
      let answer = sink.inner s.world.0 event in
      after_attempt-Called
        (retry_loop (counting sink) chances event left (suc attempt) (last_error last answer.1))
        left attempt s answer.0 answer.1
        (λ t. retry_loop-Called left (suc attempt) (last_error last answer.1) t)

  -- However a delivery goes and ends, it calls the sink behind it at most as often as there are
  -- attempts, and once at least if there are any; every call but the last one, or every one, is
  -- counted as a failed attempt.
  pub deliver-Called :
      (s : Retried (W × ℕ)) → Called sink.max_attempts s (deliver (counting sink) chances event s).0
  unfolding deliver
  deliver-Called s = retry_loop-Called sink.max_attempts 0 none s
