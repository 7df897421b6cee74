-- ===== src/Sink/Batch/Pending.antt =====
-- A buffer with events has a flush ahead of it.
use waltap.Prelude.{
  ℕ, ◌<◌, ◌≡◌, ◌≢◌, refl, Bool, true, false, ◌⊎◌, inl, inr, some, List, [], ◌∷◌, ◌++◌, length,
  arith, ◌==◌, leb, Bool-cases,
}
use waltap.Sink.Batch.{
  Flight, Trigger, by_size, by_time, by_close, Batch, start_timer, stop_timer, append_event,
  deliver, fire, land, fail_batch,
}
use waltap.Sink.Batch.Steps.{
  is_armed, Step, delivers, fires, flushes, closes, lands, Reaches, start, next,
}
use waltap.Sink.Batch.Taken.{flush_timed-buffer, close-buffer}

armed_self : (i : ℕ) (js : List ℕ) → is_armed i (i ∷ js) ≡ true
unfolding is_armed
armed_self i js = ground arith

not_first : {A : Type 0} (xs : List A) (x : A) → (length (xs ++ x ∷ []) == 1) ≡ false → xs ≢ []
not_first [] x e q = cc
not_first (y ∷ ys) x e q = cc

module _ {C A : Type 0} where
  -- The sink's timer runs, or a callback waits for the mutex.
  abbrev pub Pending : Batch C A → Type 0
  Pending b = ((i : ℕ) × (b.timer ≡ some i) × (is_armed i b.armed ≡ true)) ⊎ (0 < b.waiting)

  abbrev pub Covered : Batch C A → Type 0
  Covered b = b.buffer ≢ [] → Pending b

  fire-Pending : (i : ℕ) (b : Batch C A) → Pending b → Pending (fire i b)
  fire-Pending i b h = elim h [ inr w ↦ inr (omega (arith, w)) | inl (j, t, a) ↦ inr (omega arith) ]

  append_event-Covered :
      (ctx : C) (event : A) (b : Batch C A) → Covered b → Covered (append_event ctx event b)
  unfolding append_event start_timer is_armed
  append_event-Covered ctx event b h ne = elim (Bool-cases (length (b.buffer ++ event ∷ []) == 1)) [
    | inl e ↦
        rw (append_event, start_timer, e) (inl (b.created, refl, armed_self b.created b.armed))
    | inr e ↦ rw (append_event, start_timer, e) (h (not_first b.buffer event e))
  ]

  deliver-Covered :
      (max_size : ℕ) (ctx : C) (event : A) (b : Batch C A)
      → Covered b
      → Covered (deliver max_size ctx event b)
  unfolding deliver
  deliver-Covered max_size ctx event b h ne =
      elim (Bool-cases (leb max_size (length (append_event ctx event b).buffer))) [
        | inr e ↦ rw (deliver, e) (append_event-Covered ctx event b h (rw (deliver, e) at ne))
        | inl e ↦ absurd ((rw (deliver, stop_timer, e) at ne) refl)
      ]

  fail_batch-Covered :
      (t : Trigger) (batch : List A) (b : Batch C A) → Covered b → Covered (fail_batch t batch b)
  unfolding fail_batch
  fail_batch-Covered by_size batch b h = h
  fail_batch-Covered by_time batch b h = h
  fail_batch-Covered by_close batch b h = h

  land-Covered :
      (f : Flight C A) (failed : Bool) (b : Batch C A) → Covered b → Covered (land f failed b)
  unfolding land
  land-Covered f false b h = h
  land-Covered f true b h = fail_batch-Covered f.trigger f.batch b h

  step-Covered :
      (max_size : ℕ) (b b' : Batch C A) (more : List A) (taken : List (List A))
      → Step max_size b more taken b'
      → Covered b
      → Covered b'
  step-Covered max_size _ _ _ _ (delivers ctx event b) h = deliver-Covered max_size ctx event b h
  step-Covered max_size _ _ _ _ (fires i b armed) h = λ ne. fire-Pending i b (h ne)
  step-Covered max_size _ _ _ _ (flushes b waiting) h = λ ne. absurd (ne (flush_timed-buffer b))
  step-Covered max_size _ _ _ _ (closes b) h = λ ne. absurd (ne (close-buffer b))
  step-Covered max_size _ _ _ _ (lands before after f failed b e) h =
      land-Covered f failed (record b { in_flight = before ++ after }) h

  -- Whenever the buffer has events, whatever calls, timers and deliveries came before and between,
  -- the timer that the sink holds is running, or a timer has fired whose callback will flush.
  pub Reaches-Covered :
      (max_size : ℕ) (events : List A) (batches : List (List A)) (b : Batch C A)
      → Reaches max_size events batches b
      → b.buffer ≢ []
      → Pending b
  Reaches-Covered max_size _ _ _ start ne = absurd (ne refl)
  Reaches-Covered max_size _ _ b' (next {events} {batches = batches} r step) ne =
      step-Covered max_size _ b' _ _ step (Reaches-Covered max_size events batches _ r) ne
