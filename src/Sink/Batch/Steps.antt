-- ===== src/Sink/Batch/Steps.antt =====
-- The interleavings of the calls, the timers and the deliveries, as a step relation.
use waltap.Prelude.{
  ℕ, ◌<◌, ◌≡◌, Bool, true, false, List, [], ◌∷◌, ◌++◌, length, ◌==◌, leb, if◌then◌else◌,
}
use waltap.Sink.Batch.{Flight, Batch, new_batch, deliver, fire, flush_timed, close, land}

unfoldable pub is_armed : ℕ → List ℕ → Bool
is_armed i [] = false
is_armed i (j ∷ js) = if j == i then true else is_armed i js

-- The batch that a step takes out of a full buffer.
abbrev pub taken_if : {A : Type 0} → Bool → List A → List (List A)
taken_if true batch = batch ∷ []
taken_if false batch = []

-- The batch of a buffer that is flushed at any length.
abbrev pub taken_all : {A : Type 0} → List A → List (List A)
taken_all [] = []
taken_all (x ∷ xs) = (x ∷ xs) ∷ []

module _ {C A : Type 0} (max_size : ℕ) where
  -- A step, with the events that enter and the batches that leave the buffer in it.
  pub data Step : Batch C A → List A → List (List A) → Batch C A → Type 0 where
    delivers :
        (ctx : C) (event : A) (b : Batch C A)
        → Step b
            (event ∷ [])
            (taken_if (leb max_size (length (b.buffer ++ event ∷ []))) (b.buffer ++ event ∷ []))
            (deliver max_size ctx event b)
    fires : (i : ℕ) (b : Batch C A) → is_armed i b.armed ≡ true → Step b [] [] (fire i b)
    flushes : (b : Batch C A) → 0 < b.waiting → Step b [] (taken_all b.buffer) (flush_timed b)
    closes : (b : Batch C A) → Step b [] (taken_all b.buffer) (close b)
    lands :
        (before after : List (Flight C A)) (f : Flight C A) (failed : Bool) (b : Batch C A)
        → b.in_flight ≡ before ++ f ∷ after
        → Step b [] [] (land f failed (record b { in_flight = before ++ after }))

  -- What a new sink comes to, with all events that entered the buffer and all batches that left
  -- it, both in order.
  pub data Reaches : List A → List (List A) → Batch C A → Type 0 where
    start : Reaches [] [] new_batch
    next :
        {events more : List A} {batches taken : List (List A)} {b b' : Batch C A}
        → Reaches events batches b
        → Step b more taken b'
        → Reaches (events ++ more) (batches ++ taken) b'
