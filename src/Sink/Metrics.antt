-- ===== src/Sink/Metrics.antt =====
-- internal/sink/metrics.go: the sink that counts. `C` is what the sink behind it returns; the
-- duration of a delivery is left out.
use waltap.Prelude.{ℕ, Option, some, List, [], ◌∷◌, ◌++◌, ◌==◌, if◌then◌else◌, Bytes, codes}
use waltap.Cdc.Event.{ChangeEvent, zero_time}
use waltap.Sink.Retry.{Answer, delivered, crashed}

-- The world, the replication lag that was last set, and the labels of each count of
-- `metrics.EventsTotal`: action, table and status.
pub record Metered (W : Type 0) : Type 0 where
  pub world : W
  pub lag : Option ℕ
  pub events_total : List (Bytes × Bytes × Bytes)

abbrev pub status : {E : Type 0} → Answer E → Bytes
status delivered = codes "delivered"
status _ = codes "error"

module _ {V W E : Type 0} (inner : W → ChangeEvent V → W × Answer E) (since : ℕ → ℕ) where
  abbrev pub set_lag : Metered W → ℕ → Metered W
  set_lag m timestamp =
      if timestamp == zero_time then m else record m { lag = some (since timestamp) }

  -- Behind the inner sink; a panic passes by the count.
  abbrev pub count_event : Metered W → ChangeEvent V → W × Answer E → Metered W × Answer E
  count_event m event (w, crashed) = (record m { world = w }, crashed)
  count_event m event (w, answer) = (
    record m {
      world = w;
      events_total = m.events_total ++ (event.action, event.table, status answer) ∷ [];
    },
    answer,
  )

  unfoldable pub metered_deliver : Metered W → ChangeEvent V → Metered W × Answer E
  metered_deliver m event =
      let m' = set_lag m event.timestamp in count_event m' event (inner m'.world event)
