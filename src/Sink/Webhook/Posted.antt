-- ===== src/Sink/Webhook/Posted.antt =====
-- When a POST counts as delivered.
use waltap.Prelude.{
  ℕ, ◌≤◌, ◌<◌, ◌≡◌, ◌↔◌, refl, ap, ◌||◌, inl, inr, Option, none, some, List, [], ◌∷◌, ◌++◌, arith,
  ltb, leb, if◌then◌else◌, Bytes, codes, Option-cases, length,
}
use waltap.Cdc.Event.{ChangeEvent}
use waltap.Cdc.Decode.{decimal}
use waltap.Sink.Webhook.{
  Request, Response, responded, unreachable, Marshalled, marshalled, unmarshalled, PostError,
  bad_status, marshal_failed, request_failed, post_failed, Http, answer_of, post, webhook_deliver,
  webhook_deliver_batch,
}

good_status :
    {E : Type 0} (code : ℕ)
    → ◌≡◌ {A = Option (PostError E)}
        (if ltb code 200 || leb 300 code then some (bad_status code) else none)
        none
    → (200 ≤ code) × (code < 300)
good_status code h = ground arith

module _ {W E : Type 0} (http : Http W E) (url : Bytes) where
  -- The request that is sent.
  abbrev pub request : Bytes → List (Bytes × Bytes) → Request
  request body headers = record {
    url = url;
    body = body;
    headers = (codes "Content-Type", codes "application/json") ∷ headers;
  }

  -- The encoded body was posted, once, and the answer was from 200 to 299.
  pub record Posted (encoded : Marshalled E) (headers : List (Bytes × Bytes)) (w w' : W)
      : Type 0 where
    pub body : Bytes
    pub code : ℕ
    pub encodes : encoded ≡ marshalled body
    pub builds : http.new_request url ≡ none
    pub sends : http.send w (request body headers) ≡ (w', responded code)
    pub at_least : 200 ≤ code
    pub below : code < 300

  answer_of-none :
      (r : W × Response E) (w' : W)
      → answer_of http url r ≡ (w', none)
      → (code : ℕ) × (r ≡ (w', responded code)) × (200 ≤ code) × (code < 300)
  answer_of-none (w, unreachable e) w' h =
      let bad : ◌≡◌ {A = Option (PostError E)} (some (post_failed e)) none =
        ap (λ (x : W × Option (PostError E)). x.1) h in
      absurd cc
  answer_of-none (w, responded code) w' h =
      let same : w ≡ w' = ap (λ (x : W × Option (PostError E)). x.0) h in
      let good : (if ltb code 200 || leb 300 code then some (bad_status code) else none) ≡ none =
        ap (λ (x : W × Option (PostError E)). x.1) h in
      let (low, high) = good_status code good in (code, rw same, low, high)

  answer_of-good :
      (w : W) (code : ℕ)
      → 200 ≤ code
      → code < 300
      → answer_of http url (w, responded code) ≡ (w, none)
  answer_of-good w code low high = ground arith

  none-some :
      (w w' : W) (f : PostError E) → ◌≡◌ {A = W × Option (PostError E)} (w, some f) (w', none) → ⊥
  none-some w w' f h =
      let bad : ◌≡◌ {A = Option (PostError E)} (some f) none =
        ap (λ (x : W × Option (PostError E)). x.1) h in
      cc

  post-if :
      (encoded : Marshalled E) (headers : List (Bytes × Bytes)) (w w' : W)
      → post http url encoded headers w ≡ (w', none)
      → Posted encoded headers w w'
  unfolding post
  post-if (unmarshalled f) headers w w' h = absurd (none-some w w' (marshal_failed f) h)
  post-if (marshalled body) headers w w' h = elim (Option-cases (http.new_request url)) [
    | inr (f, e) ↦ absurd (none-some w w' (request_failed f) (rw (post, e) at h))
    | inl e ↦
        let (code, sent, low, high) =
          answer_of-none (http.send w (request body headers)) w' (rw (post, e) at h) in
        record {
          body = body;
          code = code;
          encodes = refl;
          builds = e;
          sends = sent;
          at_least = low;
          below = high;
        }
  ]

  post-back :
      (encoded : Marshalled E) (headers : List (Bytes × Bytes)) (w w' : W)
      → Posted encoded headers w w'
      → post http url encoded headers w ≡ (w', none)
  unfolding post
  post-back encoded headers w w' p =
      rw (p.encodes, post, p.builds, p.sends) (answer_of-good w' p.code p.at_least p.below)

  post-Posted :
      (encoded : Marshalled E) (headers : List (Bytes × Bytes)) (w w' : W)
      → (post http url encoded headers w ≡ (w', none)) ↔ Posted encoded headers w w'
  unfolding post
  post-Posted encoded headers w w' = (post-if encoded headers w w', post-back encoded headers w w')

  module _ {V : Type 0} where
    -- Both webhook sinks return nil exactly if the event, or the batch, was encoded, the request could
    -- be built, and its one POST with that body, and the headers that name the action and the table,
    -- or the size of the batch, was answered by a status from 200 to 299.
    pub webhooks-Posted :
        (marshal : ChangeEvent V → Marshalled E)
        (marshal_batch : List (ChangeEvent V) → Marshalled E) (event : ChangeEvent V)
        (events : List (ChangeEvent V)) (w w' : W)
        → ((webhook_deliver http url marshal w event ≡ (w', none))
            ↔ Posted
                (marshal event)
                ((codes "X-PGCDC-Action", event.action)
                  ∷ (codes "X-PGCDC-Table", event.schema ++ b'.' ∷ event.table)
                  ∷ [])
                w
                w')
          × ((webhook_deliver_batch http url marshal_batch w events ≡ (w', none))
              ↔ Posted
                  (marshal_batch events)
                  ((codes "X-PGCDC-Batch-Size", decimal (length events)) ∷ [])
                  w
                  w')
    unfolding webhook_deliver webhook_deliver_batch
    webhooks-Posted marshal marshal_batch event events w w' =
        (post-Posted (marshal event) _ w w', post-Posted (marshal_batch events) _ w w')
