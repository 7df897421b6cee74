-- ===== src/Sink/Retry/Parked.antt =====
-- A delivery that returns nil has left the event somewhere.
use waltap.Prelude.{
  ℕ, zero, suc, ◌+◌, ◌≡◌, refl, sym, ◌∙◌, ap, Option, none, some, ◌⊎◌, inl, inr, Bool-cases,
}
use waltap.Sink.Retry.{
  Answer, delivered, cancelled_retry, cancelled_wait, refused, crashed, RetrySink, Chances, Retried,
  count_attempt, count_success, exhaust, after_attempt, last_error, retry_loop, deliver,
}
use waltap.Sink.Retry.Courses.{delay_of}
use waltap.Sink.Dlq.{DlqEntry, Dlq, written, handler}

count_success-world :
    {W : Type 0} (attempt : ℕ) (s : Retried W) (w : W) → (count_success attempt s w).world ≡ w
count_success-world zero s w = refl
count_success-world (suc attempt) s w = refl

pair_eq : {A B : Type 0} (x a : A) (y b : B) → x ≡ a → y ≡ b → ◌≡◌ {A = A × B} (x, y) (a, b)
pair_eq x a y b p q = rw (p, q)

module _ {W E : Type 0} where
  cancelled_retry-delivered :
      (s s' : Retried W) (f : E)
      → ◌≡◌ {A = Retried W × Answer E} (s, cancelled_retry f) (s', delivered)
      → ⊥
  cancelled_retry-delivered s s' f e = cc

  cancelled_wait-delivered :
      (s s' : Retried W) → ◌≡◌ {A = Retried W × Answer E} (s, cancelled_wait) (s', delivered) → ⊥
  cancelled_wait-delivered s s' e = cc

  exhaust-delivered :
      (s s' : Retried W) (x : W × Answer E)
      → exhaust s x ≡ (s', delivered)
      → x ≡ (s'.world, delivered)
  exhaust-delivered s s' (w, answer) e =
      let same_world : w ≡ s'.world = ap (λ (y : Retried W × Answer E). y.0.world) e in
      let same_answer : answer ≡ delivered = ap (λ (y : Retried W × Answer E). y.1) e in
      rw (same_world, same_answer)

module _ {W A E : Type 0} (sink : RetrySink W A E) (chances : Chances) (event : A)
    (P : W → Type 0) where
  -- `P` holds where the inner sink accepts the event, and where the handler does.
  abbrev pub Accepted : Type 0
  Accepted = (w w' : W) → sink.inner w event ≡ (w', none) → P w'

  abbrev pub Handled : Type 0
  Handled = (w w' : W) (last : Option E) → sink.on_failure w event last ≡ (w', delivered) → P w'

  after_attempt-accepted :
      (next : Retried W → Retried W × Answer E) (attempt : ℕ) (s s' : Retried W)
      (answer : W × Option E)
      → (answer.1 ≡ none → P answer.0)
      → ((t : Retried W) → next t ≡ (s', delivered) → P s'.world)
      → after_attempt sink chances event next attempt s answer ≡ (s', delivered)
      → P s'.world
  unfolding after_attempt
  after_attempt-accepted next attempt s s' (w, none) accepted later e =
      let same =
        sym (ap (λ (x : Retried W × Answer E). x.0.world) e) ∙ count_success-world attempt s w in
      rw same (accepted refl)
  after_attempt-accepted next attempt s s' (w, some f) accepted later e =
      elim (Bool-cases (chances.cancelled attempt)) [
        | inl c ↦ absurd (cancelled_retry-delivered _ _ _ (rw (after_attempt, c) at e))
        | inr c ↦ elim (Bool-cases (chances.waited attempt (delay_of sink chances event attempt))) [
          | inl d ↦ later (count_attempt s w) (rw (after_attempt, c, d) at e)
          | inr d ↦ absurd (cancelled_wait-delivered _ _ (rw (after_attempt, c, d) at e))
        ]
      ]

  retry_loop-accepted :
      Accepted
      → Handled
      → (left attempt : ℕ) (last : Option E) (s s' : Retried W)
      → retry_loop sink chances event left attempt last s ≡ (s', delivered)
      → P s'.world
  unfolding retry_loop
  retry_loop-accepted accepted handled zero attempt last s s' e =
      handled s.world s'.world last (exhaust-delivered s s' (sink.on_failure s.world event last) e)
  retry_loop-accepted accepted handled (suc left) attempt last s s' e =
      let answer = sink.inner s.world event in
      after_attempt-accepted
        (retry_loop sink chances event left (suc attempt) (last_error last answer.1)) attempt s s'
        answer (λ n. accepted s.world answer.0 (ap (λ (o : Option E). (answer.0, o)) n))
        (λ t q. retry_loop-accepted accepted handled left (suc attempt) _ t s' q) e

-- The retries over an inner sink with the dead-letter file as their handler. The state is that of
-- the sink and the file.
module _ {W F A E : Type 0} (inner : W → A → W × Option E) (dlq : Dlq F A E) where
  abbrev pub inner_beside : W × F → A → (W × F) × Option E
  inner_beside (w, f) event = let (w', o) = inner w event in ((w', f), o)

  abbrev pub handler_beside : W × F → A → Option E → (W × F) × Answer E
  handler_beside (w, f) event last = let (f', a) = handler dlq f event last in ((w, f'), a)

  abbrev pub with_dlq : ℕ → ℕ → ℕ → RetrySink (W × F) A E
  with_dlq max_attempts base_delay max_delay = record {
    inner = inner_beside;
    max_attempts = max_attempts;
    base_delay = base_delay;
    max_delay = max_delay;
    on_failure = handler_beside;
  }

  module _ (Delivered : W → Type 0) (Parked : F → Type 0) (event : A) where
    abbrev pub Accepts : Type 0
    Accepts = (w w' : W) → inner w event ≡ (w', none) → Delivered w'

    abbrev pub Parks : Type 0
    Parks =
        (f f' : F) (entry : DlqEntry A)
        → entry.event ≡ event
        → dlq.encode f entry ≡ (f', none)
        → Parked f'

    abbrev pub Somewhere : W × F → Type 0
    Somewhere w = Delivered w.0 ⊎ Parked w.1

    inner_beside-Somewhere :
        Accepts → (w w' : W × F) → inner_beside w event ≡ (w', none) → Somewhere w'
    inner_beside-Somewhere accepts (w, f) (w', f') e =
        let same_world = ap (λ (x : (W × F) × Option E). x.0.0) e in
        let same_error = ap (λ (x : (W × F) × Option E). x.1) e in
        inl (accepts w w' (pair_eq _ w' _ none same_world same_error))

    written-Parked : (r : F × Option E) (f' : F) → written dlq r ≡ (f', delivered) → r ≡ (f', none)
    written-Parked (f, none) f' e = rw (ap (λ (x : F × Answer E). x.0) e)
    written-Parked (f, some x) f' e =
        let same : refused x ≡ delivered = ap (λ (y : F × Answer E). y.1) e in absurd cc

    handler_beside-Somewhere :
        Parks
        → (w w' : W × F) (last : Option E) → handler_beside w event last ≡ (w', delivered)
        → Somewhere w'
    unfolding handler
    handler_beside-Somewhere parks (w, f) (w', f') none e =
        let same : ◌≡◌ {A = Answer E} crashed delivered = ap (λ (y : (W × F) × Answer E). y.1) e in
        absurd cc
    handler_beside-Somewhere parks (w, f) (w', f') (some x) e =
        let entry : DlqEntry A = record {
          event = event;
          error = dlq.error_text x;
          failed_at = dlq.now f;
        } in
        let same_file = ap (λ (y : (W × F) × Answer E). y.0.1) e in
        let same_answer = ap (λ (y : (W × F) × Answer E). y.1) e in
        inr (
          parks f f' entry refl (
            written-Parked (dlq.encode f entry) f'
              (pair_eq _ f' _ delivered same_file same_answer)))

    -- Where the delivery of an event returns nil, whatever failed before, an attempt handed it to
    -- the inner sink, or an entry with it was encoded onto the dead-letter file: what either of
    -- these establishes holds when the delivery returns.
    pub deliver-Somewhere :
        (max_attempts base_delay max_delay : ℕ) (chances : Chances) (s s' : Retried (W × F))
        → Accepts
        → Parks
        → deliver (with_dlq max_attempts base_delay max_delay) chances event s ≡ (s', delivered)
        → Delivered s'.world.0 ⊎ Parked s'.world.1
    unfolding deliver
    deliver-Somewhere max_attempts base_delay max_delay chances s s' accepts parks e =
        retry_loop-accepted (with_dlq max_attempts base_delay max_delay) chances event Somewhere
          (inner_beside-Somewhere accepts) (handler_beside-Somewhere parks) max_attempts 0 none s s'
          e

  -- With no attempt the inner sink is not called, and the dead-letter handler, called with a nil
  -- error, panics: the event is on neither side.
  pub deliver-no_attempts :
      (base_delay max_delay : ℕ) (chances : Chances) (event : A) (s : Retried (W × F))
      → deliver (with_dlq 0 base_delay max_delay) chances event s
        ≡ (record s { exhausted = s.exhausted + 1 }, crashed)
  unfolding deliver retry_loop handler
  deliver-no_attempts base_delay max_delay chances event s = refl
