-- ===== src/Sink/Batch/Held.antt =====
-- What has become of the events that entered.
use waltap.Prelude.{ℕ, ◌+◌, ◌≡◌, ◌<◌, Bool, List, ◌++◌, length, All}
use waltap.Sink.Batch.{Batch}
use waltap.Sink.Batch.Steps.{Reaches}
use waltap.Sink.Batch.Taken.{flatten, IsBatch, limit, Reaches-taken}
use waltap.Sink.Batch.Settled.{count, count_flights, Reaches-settled}

-- The batches taken, one after the other, and then the buffer, are the events that entered, each
-- once and in order; every batch has an event and at most as many as the limit, or one where that
-- is 0, and the buffer has fewer; and of these batches, whichever are counted, each is under way,
-- delivered, returned as an error by `Deliver`, or logged as failed, once.
pub Reaches-held :
    {C A : Type 0} (p : List A → Bool) (max_size : ℕ) (events : List A) (batches : List (List A))
    (b : Batch C A)
    → Reaches max_size events batches b
    → (flatten batches ++ b.buffer ≡ events)
      × All (IsBatch max_size) batches
      × (length b.buffer < limit max_size)
      × (count p batches
          ≡ count_flights p b.in_flight
            + (count p b.delivered + (count p b.reported + count p b.logged)))
Reaches-held p max_size events batches b r =
    let (same, bounds, short) = Reaches-taken max_size events batches b r in
    (same, bounds, short, Reaches-settled p max_size events batches b r)
