-- ===== src/Sink/Batch/Settled.antt =====
-- Where the batches are that left the buffer, and what is lost without an error.
use waltap.Prelude.{
  ℕ, ◌+◌, ◌-◌, ◌≡◌, refl, ap, ◌∙◌, Bool, true, false, inl, inr, Option, none, some, List, [], ◌∷◌,
  ◌++◌, length, arith, ◌==◌, leb, if◌then◌else◌, Bool-cases, List-cases,
}
use waltap.Sink.Batch.{
  Flight, Trigger, by_size, by_time, by_close, Batch, start_timer, stop_timer, launch, append_event,
  deliver, flush_timed, close, land, fail_batch,
}
use waltap.Sink.Batch.Steps.{
  taken_if, taken_all, Step, delivers, fires, flushes, closes, lands, Reaches, start, next,
}
use waltap.Sink.Batch.Taken.{append_event-buffer}

module _ {A : Type 0} (p : List A → Bool) where
  -- How many of the batches `p` accepts.
  abbrev pub count : List (List A) → ℕ
  count [] = 0
  count (xs ∷ xss) = (if p xs then 1 else 0) + count xss

  count-append : (xss yss : List (List A)) → count (xss ++ yss) ≡ count xss + count yss
  count-append [] yss = omega arith
  count-append (xs ∷ xss) yss = omega (arith, count-append xss yss)

none_more : (n : ℕ) → n ≡ 0 + n
none_more n = omega arith

module _ {C A : Type 0} where
  module _ (p : List A → Bool) where
    abbrev pub count_flights : List (Flight C A) → ℕ
    count_flights [] = 0
    count_flights (f ∷ fs) = (if p f.batch then 1 else 0) + count_flights fs

    count_flights-append :
        (fs gs : List (Flight C A)) → count_flights (fs ++ gs) ≡ count_flights fs + count_flights gs
    count_flights-append [] gs = omega arith
    count_flights-append (f ∷ fs) gs = omega (arith, count_flights-append fs gs)

    abbrev pub settled : Batch C A → ℕ
    settled b =
        count_flights b.in_flight + (count p b.delivered + (count p b.reported + count p b.logged))

    append_event-settled :
        (ctx : C) (event : A) (b : Batch C A) → settled (append_event ctx event b) ≡ settled b
    unfolding append_event start_timer
    append_event-settled ctx event b = elim (Bool-cases (length (b.buffer ++ event ∷ []) == 1)) [
      | inl e ↦ rw e
      | inr e ↦ rw e
    ]

    launch-settled :
        (t : Trigger) (ctx : Option C) (b : Batch C A)
        → settled (launch t ctx b) ≡ count p (b.buffer ∷ []) + settled b
    launch-settled t ctx b =
        let f : Flight C A = record { trigger = t; ctx = ctx; batch = b.buffer } in
        omega (arith, count_flights-append b.in_flight (f ∷ []))

    stop_timer-settled : (b : Batch C A) → settled (stop_timer b) ≡ settled b
    unfolding stop_timer
    stop_timer-settled b = refl

    full-settled :
        (full : Bool) (ctx : Option C) (b : Batch C A)
        → settled (if full then stop_timer (launch by_size ctx b) else b)
          ≡ count p (taken_if full b.buffer) + settled b
    full-settled true ctx b =
        stop_timer-settled (launch by_size ctx b) ∙ launch-settled by_size ctx b
    full-settled false ctx b = none_more (settled b)

    deliver-settled :
        (max_size : ℕ) (ctx : C) (event : A) (b : Batch C A)
        → settled (deliver max_size ctx event b)
          ≡ count p
              (taken_if (leb max_size (length (b.buffer ++ event ∷ []))) (b.buffer ++ event ∷ []))
            + settled b
    unfolding deliver
    deliver-settled max_size ctx event b =
        let b' = append_event ctx event b in
        full-settled (leb max_size (length b'.buffer)) (some ctx) b'
        ∙ ap (λ n. count p (taken_if (leb max_size (length b'.buffer)) b'.buffer) + n)
            (append_event-settled ctx event b)
        ∙ ap (λ xs. count p (taken_if (leb max_size (length xs)) xs) + settled b)
            (append_event-buffer ctx event b)

    flush_timed-settled :
        (b : Batch C A) → settled (flush_timed b) ≡ count p (taken_all b.buffer) + settled b
    unfolding flush_timed
    flush_timed-settled b = elim (List-cases b.buffer) [
      | inl e ↦ rw (e, flush_timed) ((none_more (settled b)))
      | inr (x, xs, e) ↦
          rw (e, flush_timed)
            (launch-settled by_time b.flush_ctx (record b { waiting = b.waiting - 1 })
              ∙ ap (λ ys. count p (ys ∷ []) + settled b) e)
    ]

    close-settled : (b : Batch C A) → settled (close b) ≡ count p (taken_all b.buffer) + settled b
    unfolding close
    close-settled b = elim (List-cases b.buffer) [
      | inl e ↦ rw (e, close) ((none_more (settled b)))
      | inr (x, xs, e) ↦
          rw (e, close)
            (launch-settled by_close none (stop_timer b)
              ∙ ap (λ ys. count p (ys ∷ []) + settled b) e)
    ]

    fail_batch-settled :
        (t : Trigger) (batch : List A) (b : Batch C A)
        → settled (fail_batch t batch b) ≡ count p (batch ∷ []) + settled b
    unfolding fail_batch
    fail_batch-settled by_size batch b = omega (arith, count-append p b.reported (batch ∷ []))
    fail_batch-settled by_time batch b = omega (arith, count-append p b.logged (batch ∷ []))
    fail_batch-settled by_close batch b = omega (arith, count-append p b.logged (batch ∷ []))

    land-settled :
        (f : Flight C A) (failed : Bool) (b : Batch C A)
        → settled (land f failed b) ≡ count p (f.batch ∷ []) + settled b
    unfolding land
    land-settled f false b = omega (arith, count-append p b.delivered (f.batch ∷ []))
    land-settled f true b = fail_batch-settled f.trigger f.batch b

    removed-settled :
        (before after : List (Flight C A)) (f : Flight C A) (b : Batch C A)
        → b.in_flight ≡ before ++ f ∷ after
        → count p (f.batch ∷ []) + settled (record b { in_flight = before ++ after }) ≡ settled b
    removed-settled before after f b e = omega (
      arith,
      ap count_flights e,
      count_flights-append before (f ∷ after),
      count_flights-append before after,
    )

    step-settled :
        (max_size : ℕ) (b b' : Batch C A) (more : List A) (taken : List (List A))
        → Step max_size b more taken b'
        → settled b' ≡ count p taken + settled b
    step-settled max_size _ _ _ _ (delivers ctx event b) = deliver-settled max_size ctx event b
    step-settled max_size _ _ _ _ (fires i b armed) = none_more (settled b)
    step-settled max_size _ _ _ _ (flushes b waiting) = flush_timed-settled b
    step-settled max_size _ _ _ _ (closes b) = close-settled b
    step-settled max_size _ _ _ _ (lands before after f failed b e) =
        land-settled f failed (record b { in_flight = before ++ after })
        ∙ removed-settled before after f b e
        ∙ none_more (settled b)

    pub Reaches-settled :
        (max_size : ℕ) (events : List A) (batches : List (List A)) (b : Batch C A)
        → Reaches max_size events batches b
        → count p batches
          ≡ count_flights b.in_flight
            + (count p b.delivered + (count p b.reported + count p b.logged))
    Reaches-settled max_size _ _ _ start = omega arith
    Reaches-settled max_size _ _ b' (next {events} {more} {batches} {taken} {b} r step) = omega (
      arith,
      count-append p batches taken,
      Reaches-settled max_size events batches b r,
      step-settled max_size b b' more taken step,
    )
