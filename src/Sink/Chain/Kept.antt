-- ===== src/Sink/Chain/Kept.antt =====
-- What the chain of sinks leaves alone, however a delivery ends.
use waltap.Prelude.{ℕ, ◌≡◌, refl, inl, inr, Option, none, some, Option-cases, List, Bytes}
use waltap.Cdc.Event.{ChangeEvent}
use waltap.Sink.Retry.{
  Answer, delivered, cancelled_retry, cancelled_wait, refused, crashed, Chances, Retried, deliver,
}
use waltap.Sink.Retry.Parked.{with_dlq}
use waltap.Sink.Retry.Kept.{deliver-kept}
use waltap.Sink.Dlq.{DlqEntry, Dlq, written, handler}
use waltap.Sink.Metrics.{Metered, set_lag, count_event, metered_deliver}
use waltap.Sink.Webhook.{
  Marshalled, marshalled, unmarshalled, PostError, Http, Request, Response, responded, unreachable,
  answer_of, post, webhook_deliver,
}
use waltap.Sink.Chain.{chain, set_lag-keeps}

count_event-world :
    {V W E : Type 0} (inner : W → ChangeEvent V → W × Answer E) (since : ℕ → ℕ) (m : Metered W)
    (event : ChangeEvent V) (r : W × Answer E)
    → (count_event inner since m event r).0.world ≡ r.0
count_event-world inner since m event (w, delivered) = refl
count_event-world inner since m event (w, cancelled_retry f) = refl
count_event-world inner since m event (w, cancelled_wait) = refl
count_event-world inner since m event (w, refused f) = refl
count_event-world inner since m event (w, crashed) = refl

answer_of-world :
    {W E : Type 0} (http : Http W E) (url : Bytes) (r : W × Response E)
    → (answer_of http url r).0 ≡ r.0
answer_of-world http url (w, responded code) = refl
answer_of-world http url (w, unreachable e) = refl

written-file : {F A E : Type 0} (dlq : Dlq F A E) (r : F × Option E) → (written dlq r).0 ≡ r.0
written-file dlq (f, none) = refl
written-file dlq (f, some e) = refl

module _ {V W F E : Type 0} (http : Http W E) (url : Bytes) (marshal : ChangeEvent V → Marshalled E)
    (dlq : Dlq F (ChangeEvent V) (PostError E)) (max_attempts base_delay max_delay : ℕ)
    (chances : Chances) (since : ℕ → ℕ) where
  module _ (Q : W × F → Type 0)
      (sends : (w : W) (f : F) (r : Request) → Q (w, f) → Q ((http.send w r).0, f))
      (encodes : (w : W) (f : F) (entry : DlqEntry (ChangeEvent V))
        → Q (w, f)
        → Q (w, (dlq.encode f entry).0)) where
    post-kept :
        (body : Marshalled E) (headers : List (Bytes × Bytes)) (w : W) (f : F)
        → Q (w, f)
        → Q ((post http url body headers w).0, f)
    unfolding post
    post-kept (unmarshalled e) headers w f h = h
    post-kept (marshalled body) headers w f h = elim (Option-cases (http.new_request url)) [
      | inl e ↦ rw (e, post, answer_of-world http url) (sends w f _ h)
      | inr (f', e) ↦ rw (e, post) h
    ]

    webhook_deliver-kept :
        (w : W) (f : F) (event : ChangeEvent V)
        → Q (w, f)
        → Q ((webhook_deliver http url marshal w event).0, f)
    unfolding webhook_deliver
    webhook_deliver-kept w f event h = post-kept (marshal event) _ w f h

    handler-kept :
        (w : W) (f : F) (event : ChangeEvent V) (last : Option (PostError E))
        → Q (w, f)
        → Q (w, (handler dlq f event last).0)
    unfolding handler
    handler-kept w f event none h = h
    handler-kept w f event (some e) h = rw (written-file dlq) (encodes w f _ h)

    -- What a request and an entry of the dead-letter file keep is kept by a delivery.
    pub chain-kept :
        (m : Metered (Retried (W × F))) (event : ChangeEvent V)
        → Q m.world.world
        → Q
            (chain http url marshal dlq max_attempts base_delay max_delay chances since m
              event).0.world.world
    unfolding metered_deliver
    chain-kept m event h =
        let sink =
          with_dlq (webhook_deliver http url marshal) dlq max_attempts base_delay max_delay in
        let retried = λ (s : Retried (W × F)) (e : ChangeEvent V). deliver sink chances e s in
        let m' = set_lag retried since m event.timestamp in
        let kept : Q (deliver sink chances event m'.world).0.world =
          deliver-kept sink chances event Q (λ (w, f) q. webhook_deliver-kept w f event q)
            (λ (w, f) last q. handler-kept w f event last q) m'.world
            (rw (set_lag-keeps retried since m event.timestamp).0 h) in
        rw (count_event-world retried since m' event (retried m'.world event)) kept
