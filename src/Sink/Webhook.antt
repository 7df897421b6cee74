-- ===== src/Sink/Webhook.antt =====
-- internal/sink/webhook.go and webhook_batch.go: a POST with a JSON body. The encoder, the building
-- of a request and the HTTP client, which keeps a state of type `W`, are parameters.
pub mod Posted
use waltap.Prelude.{
  ℕ, zero, suc, ◌+◌, Bool, true, false, ◌&&◌, ◌||◌, Option, none, some, List, [], ◌∷◌, ◌++◌, length,
  ltb, leb, if◌then◌else◌, Bytes, codes,
}
use waltap.Cdc.Event.{ChangeEvent}
use waltap.Cdc.Decode.{decimal}

pub record Request : Type 0 where
  pub url : Bytes
  pub body : Bytes
  pub headers : List (Bytes × Bytes)

pub data Response (E : Type 0) : Type 0 where
  responded : (status_code : ℕ) → Response E
  unreachable : E → Response E

pub data Marshalled (E : Type 0) : Type 0 where
  marshalled : Bytes → Marshalled E
  unmarshalled : E → Marshalled E

pub data PostError (E : Type 0) : Type 0 where
  marshal_failed request_failed post_failed : E → PostError E
  bad_status : ℕ → PostError E

pub record Http (W E : Type 0) : Type 0 where
  pub new_request : Bytes → Option E
  pub send : W → Request → W × Response E

module _ {W E : Type 0} (http : Http W E) (url : Bytes) where
  -- Behind `client.Do`
  abbrev pub answer_of : W × Response E → W × Option (PostError E)
  answer_of (w, unreachable e) = (w, some (post_failed e))
  answer_of (w, responded code) =
      (w, if ltb code 200 || leb 300 code then some (bad_status code) else none)

  -- What both sinks do with an encoded body and the headers of their own.
  unfoldable pub post : Marshalled E → List (Bytes × Bytes) → W → W × Option (PostError E)
  post (unmarshalled e) headers w = (w, some (marshal_failed e))
  post (marshalled body) headers w = elim (http.new_request url) [
    | some e ↦ (w, some (request_failed e))
    | none ↦ answer_of (
        http.send w (record {
          url = url;
          body = body;
          headers = (codes "Content-Type", codes "application/json") ∷ headers;
        }))
  ]

  module _ {V : Type 0} where
    unfoldable pub webhook_deliver :
        (ChangeEvent V → Marshalled E) → W → ChangeEvent V → W × Option (PostError E)
    unfolding post
    webhook_deliver marshal w event =
        post (marshal event)
          ((codes "X-PGCDC-Action", event.action)
            ∷ (codes "X-PGCDC-Table", event.schema ++ b'.' ∷ event.table)
            ∷ [])
          w

    unfoldable pub webhook_deliver_batch :
        (List (ChangeEvent V) → Marshalled E) → W → List (ChangeEvent V) → W × Option (PostError E)
    unfolding post decimal
    webhook_deliver_batch marshal w events =
        post (marshal events) ((codes "X-PGCDC-Batch-Size", decimal (length events)) ∷ []) w
