-- ===== src/Sink/Stdout.antt =====
-- internal/sink/stdout.go and stdout_batch.go: lines of JSON. The encoder on standard output, which
-- keeps a state of type `O`, is a parameter; standard error is kept as its lines.
pub mod Batched
use waltap.Prelude.{ℕ, Option, none, some, List, [], ◌∷◌, ◌++◌, length, Bytes, codes}
use waltap.Cdc.Decode.{decimal}

-- `batchOutput`
pub record BatchOutput (A : Type 0) : Type 0 where
  pub batch_size : ℕ
  pub events : List A

abbrev pub flush_note : {A : Type 0} → List A → Bytes
flush_note events = codes "[batch] flushing " ++ decimal (length events) ++ codes " events\n"

module _ {O A E : Type 0} where
  unfoldable pub stdout_deliver : (O → A → O × Option E) → O → A → O × Option E
  stdout_deliver encode o event = encode o event

  -- What `DeliverBatch` prints on standard error, and its encoder's answer.
  unfoldable pub stdout_deliver_batch :
      (O → BatchOutput A → O × Option E) → List Bytes × O → List A → (List Bytes × O) × Option E
  stdout_deliver_batch encode (notes, o) events =
      let (o', e) = encode o (record { batch_size = length events; events = events }) in
      ((notes ++ flush_note events ∷ [], o'), e)
