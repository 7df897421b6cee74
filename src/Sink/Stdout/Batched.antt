-- ===== src/Sink/Stdout/Batched.antt =====
-- The batching sink over standard output beside the sink that prints each event.
use waltap.Prelude.{
  ℕ, ◌≡◌, refl, ap, sym, ◌∙◌, Bool, true, false, ◌==◌, inl, inr, Option, none, some, List, [], ◌∷◌,
  ◌++◌, map, length, append-nil, append_assoc, leb, if◌then◌else◌, Bool-cases, List-cases, Bytes,
}
use waltap.Sink.Batch.{
  Trigger, Flight, Batch, new_batch, append_event, start_timer, deliver, stop_timer, launch,
  by_size, by_close, close, land,
}
use waltap.Sink.Batch.Taken.{flatten, flatten-append}
use waltap.Sink.Stdout.{BatchOutput, stdout_deliver, stdout_deliver_batch}

flatten-last :
    {A : Type 0} (xss : List (List A)) (xs : List A) → flatten (xss ++ xs ∷ []) ≡ flatten xss ++ xs
flatten-last xss xs = flatten-append xss (xs ∷ []) ∙ ap (λ l. flatten xss ++ l) (append-nil xs)

module _ {C A : Type 0} where
  -- Every delivery under way ends, without an error.
  unfoldable pub land_all : List (Flight C A) → Batch C A → Batch C A
  unfolding land
  land_all [] b = b
  land_all (f ∷ fs) b = land_all fs (land f false (record b { in_flight = fs }))

  -- A call that returns before anything else happens.
  abbrev pub at_once : Batch C A → Batch C A
  at_once b = land_all b.in_flight b

  -- The events one after the other, and `Close`.
  unfoldable pub batch_events : ℕ → C → List A → Batch C A → Batch C A
  unfolding land_all deliver close
  batch_events max_size ctx [] b = at_once (close b)
  batch_events max_size ctx (event ∷ events) b =
      batch_events max_size ctx events (at_once (deliver max_size ctx event b))

  -- What is delivered and what waits, in order.
  abbrev held : Batch C A → List A
  held b = flatten b.delivered ++ b.buffer

  abbrev IsHeld : Batch C A → List A → Type 0
  IsHeld b events = (b.in_flight ≡ []) × (held b ≡ events)

  at_once-none : (b : Batch C A) → b.in_flight ≡ [] → at_once b ≡ b
  unfolding land_all
  at_once-none b none_in = ap (λ fs. land_all fs b) none_in

  launched-IsHeld :
      (t : Trigger) (ctx : Option C) (b : Batch C A) (events : List A)
      → IsHeld b events
      → ((at_once (launch t ctx b)).in_flight ≡ [])
        × (flatten (at_once (launch t ctx b)).delivered ≡ events)
        × ((at_once (launch t ctx b)).buffer ≡ [])
  unfolding land_all land
  launched-IsHeld t ctx b events (none_in, all) =
      rw none_in (refl, flatten-last b.delivered b.buffer ∙ all, refl)

  full-IsHeld :
      (full : Bool) (ctx : Option C) (b : Batch C A) (events : List A)
      → IsHeld b events
      → IsHeld (at_once (if full then stop_timer (launch by_size ctx b) else b)) events
  unfolding land_all land stop_timer
  full-IsHeld true ctx b events h =
      let (none_in, all, emptied) = launched-IsHeld by_size ctx (stop_timer b) events h in
      (none_in, rw emptied (append-nil _ ∙ all))
  full-IsHeld false ctx b events (none_in, all) = rw (at_once-none b none_in) (none_in, all)

  append_event-IsHeld :
      (ctx : C) (event : A) (b : Batch C A) (events : List A)
      → IsHeld b events
      → IsHeld (append_event ctx event b) (events ++ event ∷ [])
  unfolding append_event start_timer
  append_event-IsHeld ctx event b events (none_in, all) =
      elim (Bool-cases (length (b.buffer ++ event ∷ []) == 1)) [
        | inl e ↦ rw e (
          none_in,
          sym (append_assoc (flatten b.delivered) b.buffer (event ∷ []))
              ∙ ap (λ l. l ++ event ∷ []) all,
        )
        | inr e ↦ rw e (
          none_in,
          sym (append_assoc (flatten b.delivered) b.buffer (event ∷ []))
              ∙ ap (λ l. l ++ event ∷ []) all,
        )
      ]

  deliver-IsHeld :
      (max_size : ℕ) (ctx : C) (event : A) (b : Batch C A) (events : List A)
      → IsHeld b events
      → IsHeld (at_once (deliver max_size ctx event b)) (events ++ event ∷ [])
  unfolding deliver
  deliver-IsHeld max_size ctx event b events h =
      let b' = append_event ctx event b in
      full-IsHeld (leb max_size (length b'.buffer)) (some ctx) b' (events ++ event ∷ [])
        (append_event-IsHeld ctx event b events h)

  close-IsHeld :
      (b : Batch C A) (events : List A)
      → IsHeld b events
      → flatten (at_once (close b)).delivered ≡ events
  unfolding close
  close-IsHeld b events h = elim (List-cases b.buffer) [
    | inl e ↦
        rw (e, close)
          (ap (λ (x : Batch C A). flatten x.delivered) (at_once-none (stop_timer b) h.0)
            ∙ sym (append-nil (flatten b.delivered))
            ∙ rw e at h.1)
    | inr (x, xs, e) ↦ rw (e, close) (launched-IsHeld by_close none (stop_timer b) events h).1
  ]

  batch_events-held :
      (max_size : ℕ) (ctx : C) (events before : List A) (b : Batch C A)
      → IsHeld b before
      → flatten (batch_events max_size ctx events b).delivered ≡ before ++ events
  unfolding batch_events
  batch_events-held max_size ctx [] before b h = close-IsHeld b before h ∙ sym (append-nil before)
  batch_events-held max_size ctx (event ∷ events) before b h =
      batch_events-held max_size ctx events (before ++ event ∷ [])
        (at_once (deliver max_size ctx event b)) (deliver-IsHeld max_size ctx event b before h)
      ∙ append_assoc before (event ∷ []) events

-- An encoder that fails on nothing: the values printed, in order.
abbrev pub print : {B : Type 0} → List B → B → List B × Option (Unit {0})
print lines x = (lines ++ x ∷ [], none)

module _ {A : Type 0} where
  unfoldable pub print_each : List A → List A → List A
  unfolding stdout_deliver
  print_each lines [] = lines
  print_each lines (event ∷ events) = print_each (stdout_deliver print lines event).0 events

  unfoldable pub print_batches :
      List Bytes × List (BatchOutput A) → List (List A) → List Bytes × List (BatchOutput A)
  unfolding stdout_deliver_batch
  print_batches out [] = out
  print_batches out (batch ∷ batches) =
      print_batches (stdout_deliver_batch print out batch).0 batches

  print_each-lines : (lines events : List A) → print_each lines events ≡ lines ++ events
  unfolding print_each stdout_deliver
  print_each-lines lines [] = sym (append-nil lines)
  print_each-lines lines (event ∷ events) =
      print_each-lines (lines ++ event ∷ []) events ∙ append_assoc lines (event ∷ []) events

  abbrev pub sized : List A → BatchOutput A
  sized batch = record { batch_size = length batch; events = batch }

  print_batches-lines :
      (out : List Bytes × List (BatchOutput A)) (batches : List (List A))
      → (print_batches out batches).1 ≡ out.1 ++ map sized batches
  unfolding print_batches stdout_deliver_batch
  print_batches-lines out [] = sym (append-nil out.1)
  print_batches-lines out (batch ∷ batches) =
      print_batches-lines (stdout_deliver_batch print out batch).0 batches
      ∙ append_assoc out.1 (sized batch ∷ []) (map sized batches)

  map-sized :
      (batches : List (List A))
      → map (λ (o : BatchOutput A). o.events) (map sized batches) ≡ batches
  map-sized [] = refl
  map-sized (batch ∷ batches) = rw (map-sized batches)

  -- Whatever the size of a batch, where no delivery fails and none waits for the timer, what the
  -- batching sink over standard output has printed when it is closed is what the sink without
  -- batches prints: the events of its lines, one line behind the other.
  pub batched-stdout :
      {C : Type 0} (max_size : ℕ) (ctx : C) (events : List A)
      → flatten (
          map
            (λ (o : BatchOutput A). o.events)
            (print_batches ([], []) (batch_events max_size ctx events new_batch).delivered).1)
        ≡ print_each [] events
  batched-stdout max_size ctx events =
      let b = batch_events max_size ctx events new_batch in
      ap (λ l. flatten (map (λ (o : BatchOutput A). o.events) l))
        (print_batches-lines ([], []) b.delivered)
      ∙ ap flatten (map-sized b.delivered)
      ∙ batch_events-held max_size ctx events [] new_batch (refl, refl)
      ∙ sym (print_each-lines [] events)
