-- ===== src/Sink/Retry/Courses.antt =====
-- How a delivery goes that succeeds behind failures, and one that never does.
use waltap.Prelude.{
  ℕ, zero, suc, ◌+◌, ◌-◌, ◌<◌, ◌≡◌, ◌∙◌, ap, true, false, Option, none, some, arith,
}
use waltap.Sink.Retry.{
  Answer, delivered, RetrySink, Chances, Retried, backoff, count_attempt, count_success, exhaust,
  after_attempt, last_error, retry_loop, deliver,
}

module _ {W A E : Type 0} (sink : RetrySink W A E) (chances : Chances) (event : A) where
  abbrev pub delay_of : ℕ → ℕ
  delay_of attempt =
      chances.jitter attempt (backoff chances.out_of_range sink.base_delay sink.max_delay attempt)

  -- Attempts from number `attempt` on, in `w`, that all fail, the context being live behind each
  -- and through the delay: how many, the world after them, and the last error, which is that of
  -- `last` where there are none.
  pub data Fails : ℕ → ℕ → W → Option E → W → Option E → Type 0 where
    no_more : {attempt : ℕ} {w : W} {last : Option E} → Fails zero attempt w last w last
    fails :
        {n attempt : ℕ} {w w' v : W} {e : E} {last end : Option E}
        → sink.inner w event ≡ (w', some e)
        → chances.cancelled attempt ≡ false
        → chances.waited attempt (delay_of attempt) ≡ true
        → Fails n (suc attempt) w' (some e) v end
        → Fails (suc n) attempt w last v end

  abbrev pub counted : Retried W → W → ℕ → Retried W
  counted s w n = record s { world = w; attempts = s.attempts + n }

  after_failure :
      (next : Retried W → Retried W × Answer E) (attempt : ℕ) (s : Retried W) (w : W) (e : E)
      → chances.cancelled attempt ≡ false
      → chances.waited attempt (delay_of attempt) ≡ true
      → after_attempt sink chances event next attempt s (w, some e) ≡ next (count_attempt s w)
  unfolding after_attempt
  after_failure next attempt s w e c d = rw (c, d)

  retry_loop-failure :
      (left attempt : ℕ) (s : Retried W) (last : Option E) (w : W) (e : E)
      → sink.inner s.world event ≡ (w, some e)
      → chances.cancelled attempt ≡ false
      → chances.waited attempt (delay_of attempt) ≡ true
      → retry_loop sink chances event (suc left) attempt last s
        ≡ retry_loop sink chances event left (suc attempt) (some e) (count_attempt s w)
  unfolding retry_loop
  retry_loop-failure left attempt s last w e inner live waited =
      rw (inner, retry_loop)
        (after_failure (retry_loop sink chances event left (suc attempt) (some e)) attempt s w e
          live waited)

  -- The loop is past `n` failures.
  retry_loop-Fails :
      (n left total attempt : ℕ) (s : Retried W) (last end : Option E) (v : W)
      → n + left ≡ total
      → Fails n attempt s.world last v end
      → retry_loop sink chances event total attempt last s
        ≡ retry_loop sink chances event left (attempt + n) end (counted s v n)
  retry_loop-Fails _ left total attempt s last _ _ sum no_more =
      let none_left : left ≡ total = omega (arith, sum) in
      let same : attempt + 0 ≡ attempt = omega arith in
      let uncounted : s.attempts + 0 ≡ s.attempts = omega arith in rw (none_left, same, uncounted)
  retry_loop-Fails _ left zero attempt s last end v sum (fails {n} inner live waited rest) =
      absurd (omega (arith, sum))
  retry_loop-Fails _ left (suc total) attempt s last end v sum
        (fails {n} {w' = w'} {e = e} inner live waited rest) =
      let same : suc attempt + n ≡ attempt + suc n = omega arith in
      let recounted : (s.attempts + 1) + n ≡ s.attempts + suc n = omega arith in
      retry_loop-failure total attempt s last w' e inner live waited
      ∙ rw (same, recounted) at
          (retry_loop-Fails n left total (suc attempt) (count_attempt s w') (some e) end v
            (omega (arith, sum)) rest)

  retry_loop-success :
      (left attempt : ℕ) (s : Retried W) (last : Option E) (w : W)
      → sink.inner s.world event ≡ (w, none)
      → retry_loop sink chances event (suc left) attempt last s
        ≡ (count_success attempt s w, delivered)
  unfolding retry_loop after_attempt
  retry_loop-success left attempt s last w inner =
      ap
        (λ (answer : W × Option E).
          after_attempt sink chances event
            (retry_loop sink chances event left (suc attempt) (last_error last answer.1)) attempt s
            answer)
        inner

  -- A delivery that fails fewer times than there are attempts, and then succeeds, returns nil: the
  -- inner sink was called once for each failure and once more, and the failure handler was not.
  pub deliver-recovers :
      (n : ℕ) (s : Retried W) (v w : W) (end : Option E)
      → n < sink.max_attempts
      → Fails n 0 s.world none v end
      → sink.inner v event ≡ (w, none)
      → deliver sink chances event s ≡ (count_success n (counted s v n) w, delivered)
  unfolding deliver
  deliver-recovers n s v w end lt course inner =
      let left = sink.max_attempts - suc n in
      let start : 0 + n ≡ n = omega arith in
      rw start at
        (retry_loop-Fails n (suc left) sink.max_attempts 0 s none end v (omega (arith, lt)) course)
      ∙ retry_loop-success left n (counted s v n) end w inner

  -- A delivery whose every attempt fails, the context being live, ends as the failure handler says,
  -- which is called once, in the world that the attempts leave and with the error of the last one.
  pub deliver-exhausts :
      (s : Retried W) (v : W) (end : Option E)
      → Fails sink.max_attempts 0 s.world none v end
      → deliver sink chances event s
        ≡ exhaust (counted s v sink.max_attempts) (sink.on_failure v event end)
  unfolding deliver retry_loop
  deliver-exhausts s v end course =
      retry_loop-Fails sink.max_attempts 0 sink.max_attempts 0 s none end v (omega arith) course
