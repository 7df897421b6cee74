-- ===== src/Sink/Chain.antt =====
-- internal/sink: the sinks one around the other, as metrics.go shows them: the metrics around the
-- retries around a webhook, with the dead-letter file behind the retries.
pub mod Kept
use waltap.Prelude.{
  ℕ, ◌≡◌, refl, sym, ap, ◌⊎◌, inl, inr, Bool-cases, [], ◌∷◌, ◌++◌, ◌==◌, Bytes, codes,
}
use waltap.Cdc.Event.{ChangeEvent, zero_time}
use waltap.Sink.Retry.{
  Answer, delivered, cancelled_retry, cancelled_wait, refused, crashed, Chances, Retried, deliver,
}
use waltap.Sink.Retry.Parked.{with_dlq, Parks, deliver-Somewhere}
use waltap.Sink.Dlq.{Dlq}
use waltap.Sink.Metrics.{Metered, set_lag, count_event, metered_deliver}
use waltap.Sink.Webhook.{Marshalled, PostError, Http, webhook_deliver}
use waltap.Sink.Webhook.Posted.{Posted, webhooks-Posted}

other_answer :
    {M E : Type 0} {m m' : M} {a : Answer E}
    → ◌≡◌ {A = M × Answer E} (m, a) (m', delivered)
    → (a ≡ delivered → ⊥)
    → ⊥
other_answer {M} {E} e bad = bad (ap (λ (x : M × Answer E). x.1) e)

module _ {V W E : Type 0} (inner : W → ChangeEvent V → W × Answer E) (since : ℕ → ℕ) where
  count_event-delivered :
      (m m' : Metered W) (event : ChangeEvent V) (r : W × Answer E)
      → count_event inner since m event r ≡ (m', delivered)
      → (r ≡ (m'.world, delivered))
        × (m'.events_total ≡ m.events_total ++ (event.action, event.table, codes "delivered") ∷ [])
  count_event-delivered m m' event (w, delivered) e =
      let same = ap (λ (x : Metered W × Answer E). x.0) e in
      (rw (ap (λ (x : Metered W). x.world) same), sym (ap (λ (x : Metered W). x.events_total) same))
  count_event-delivered m m' event (w, cancelled_retry f) e = absurd (other_answer e (λ q. cc))
  count_event-delivered m m' event (w, cancelled_wait) e = absurd (other_answer e (λ q. cc))
  count_event-delivered m m' event (w, refused f) e = absurd (other_answer e (λ q. cc))
  count_event-delivered m m' event (w, crashed) e = absurd (other_answer e (λ q. cc))

  pub set_lag-keeps :
      (m : Metered W) (timestamp : ℕ)
      → ((set_lag inner since m timestamp).world ≡ m.world)
        × ((set_lag inner since m timestamp).events_total ≡ m.events_total)
  set_lag-keeps m timestamp = elim (Bool-cases (timestamp == zero_time)) [
    | inl e ↦ rw e (refl, refl)
    | inr e ↦ rw e (refl, refl)
  ]

  pub metered_deliver-delivered :
      (m m' : Metered W) (event : ChangeEvent V)
      → metered_deliver inner since m event ≡ (m', delivered)
      → (inner m.world event ≡ (m'.world, delivered))
        × (m'.events_total ≡ m.events_total ++ (event.action, event.table, codes "delivered") ∷ [])
  unfolding metered_deliver
  metered_deliver-delivered m m' event e =
      let l = set_lag inner since m event.timestamp in
      let (world, totals) = set_lag-keeps m event.timestamp in
      let (answer, counted) = count_event-delivered l m' event (inner l.world event) e in
      (rw world at answer, rw totals at counted)

module _ {V W F E : Type 0} (http : Http W E) (url : Bytes) (marshal : ChangeEvent V → Marshalled E)
    (dlq : Dlq F (ChangeEvent V) (PostError E)) (max_attempts base_delay max_delay : ℕ)
    (chances : Chances) (since : ℕ → ℕ) where
  abbrev pub chain :
      Metered (Retried (W × F)) → ChangeEvent V → Metered (Retried (W × F)) × Answer (PostError E)
  chain m event =
      metered_deliver
        (λ s e.
          deliver
            (with_dlq (webhook_deliver http url marshal) dlq max_attempts base_delay max_delay)
            chances e s)
        since m event

  -- Where the chain returns nil for an event, it has counted it, once, as delivered, and the event
  -- was posted and answered by a status from 200 to 299, or encoded onto the dead-letter file: what
  -- either of these establishes holds when the chain returns.
  pub chain-delivered :
      (Delivered : W → Type 0) (Parked : F → Type 0) (event : ChangeEvent V)
      (m m' : Metered (Retried (W × F)))
      → ((w w' : W)
          → Posted http url
              (marshal event)
              ((codes "X-PGCDC-Action", event.action)
                ∷ (codes "X-PGCDC-Table", event.schema ++ b'.' ∷ event.table)
                ∷ [])
              w
              w'
          → Delivered w')
      → Parks (webhook_deliver http url marshal) dlq Delivered Parked event
      → chain m event ≡ (m', delivered)
      → (m'.events_total ≡ m.events_total ++ (event.action, event.table, codes "delivered") ∷ [])
        × (Delivered m'.world.world.0 ⊎ Parked m'.world.world.1)
  chain-delivered Delivered Parked event m m' posts parks e =
      let (answer, counted) = metered_deliver-delivered _ since m m' event e in
      (
        counted,
        deliver-Somewhere (webhook_deliver http url marshal) dlq Delivered Parked event max_attempts
            base_delay max_delay chances m.world m'.world
            (λ w w' h.
              posts w w'
                ((webhooks-Posted http url marshal (λ es. marshal event) event [] w w').0.0 h))
            parks answer,
      )
