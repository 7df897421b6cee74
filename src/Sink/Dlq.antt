-- ===== src/Sink/Dlq.antt =====
-- internal/sink/dlq.go: the dead-letter file as the failure handler of the retries. The file and
-- the encoder on it are parameters, as are the text of an error and the time.
use waltap.Prelude.{ℕ, Option, none, some, Bytes}
use waltap.Sink.Retry.{Answer, delivered, refused, crashed}

pub record DlqEntry (A : Type 0) : Type 0 where
  pub event : A
  pub error : Bytes
  pub failed_at : ℕ

pub record Dlq (F A E : Type 0) : Type 0 where
  pub encode : F → DlqEntry A → F × Option E
  pub error_text : E → Bytes
  pub now : F → ℕ

module _ {F A E : Type 0} (dlq : Dlq F A E) where
  abbrev pub written : F × Option E → F × Answer E
  written (f, none) = (f, delivered)
  written (f, some e) = (f, refused e)

  -- `deliveryErr.Error()` panics on a nil error.
  unfoldable pub handler : F → A → Option E → F × Answer E
  handler f event none = (f, crashed)
  handler f event (some e) =
      written
        (dlq.encode f (record { event = event; error = dlq.error_text e; failed_at = dlq.now f }))
