-- ===== src/Sink/Batch/Taken.antt =====
-- What leaves the buffer, and in which order.
use waltap.Prelude.{
  ℕ, ◌≤◌, ◌<◌, ◌≡◌, refl, sym, ap, ◌∙◌, Bool, true, false, inl, inr, List, [], ◌∷◌, ◌++◌,
  append-nil, append_assoc, length, length-append, All, All-append, arith, ◌==◌, leb, if◌then◌else◌,
  Bool-cases, List-cases,
}
use waltap.Sink.Batch.{
  Flight, Trigger, Batch, by_size, by_time, by_close, start_timer, stop_timer, append_event,
  deliver, flush_timed, close, land, fail_batch,
}
use waltap.Sink.Batch.Steps.{
  taken_if, taken_all, Step, delivers, fires, flushes, closes, lands, Reaches, start, next,
}

abbrev pub flatten : {A : Type 0} → List (List A) → List A
flatten [] = []
flatten (xs ∷ xss) = xs ++ flatten xss

pub flatten-append :
    {A : Type 0} (xss yss : List (List A)) → flatten (xss ++ yss) ≡ flatten xss ++ flatten yss
flatten-append [] yss = refl
flatten-append (xs ∷ xss) yss =
    rw (flatten-append xss yss, append_assoc xs (flatten xss) (flatten yss))

flatten-taken_all : {A : Type 0} (xs : List A) → flatten (taken_all xs) ≡ xs
flatten-taken_all [] = refl
flatten-taken_all (x ∷ xs) = append-nil (x ∷ xs)

flatten-append_with :
    {A : Type 0} (xss yss : List (List A)) (zs : List A)
    → flatten (xss ++ yss) ++ zs ≡ flatten xss ++ (flatten yss ++ zs)
flatten-append_with xss yss zs =
    rw (flatten-append xss yss) (append_assoc (flatten xss) (flatten yss) zs)

flatten-taken_if :
    {A : Type 0} (full : Bool) (xs : List A)
    → flatten (taken_if full xs) ++ (if full then [] else xs) ≡ xs
flatten-taken_if true xs = append-nil (xs ++ []) ∙ append-nil xs
flatten-taken_if false xs = refl

flatten-emptied : {A : Type 0} (xs : List A) → flatten (taken_all xs) ++ [] ≡ xs ++ []
flatten-emptied xs = ap (λ ys. ys ++ []) (flatten-taken_all xs)

-- The limit of a batch.
abbrev pub limit : ℕ → ℕ
limit max_size = if max_size == 0 then 1 else max_size

limit-positive : (max_size : ℕ) → 0 < limit max_size
limit-positive max_size = ground arith

not_full : (max_size n : ℕ) → leb max_size n ≡ false → n < limit max_size
not_full max_size n e = ground arith

module _ {A : Type 0} (max_size : ℕ) where
  -- A batch is not empty, and no longer than the limit, or than 1 where that is 0.
  abbrev pub IsBatch : List A → Type 0
  IsBatch batch = (0 < length batch) × (length batch ≤ limit max_size)

  taken_all-IsBatch : (xs : List A) → length xs < limit max_size → All IsBatch (taken_all xs)
  taken_all-IsBatch [] h = tt
  taken_all-IsBatch (x ∷ xs) h = ((omega arith, omega (arith, h)), tt)

  taken_if-Bounded :
      (xs : List A) (x : A)
      → length xs < limit max_size
      → (length (if leb max_size (length (xs ++ x ∷ [])) then [] else xs ++ x ∷ [])
          < limit max_size)
        × All IsBatch (taken_if (leb max_size (length (xs ++ x ∷ []))) (xs ++ x ∷ []))
  taken_if-Bounded xs x h =
      let one = length-append xs (x ∷ []) in
      elim (Bool-cases (leb max_size (length (xs ++ x ∷ [])))) [
        | inl e ↦ rw e (limit-positive max_size, ((omega (arith, one), omega (arith, one, h)), tt))
        | inr e ↦ rw e (not_full max_size (length (xs ++ x ∷ [])) e, tt)
      ]

module _ {C A : Type 0} where
  pub append_event-buffer :
      (ctx : C) (event : A) (b : Batch C A)
      → (append_event ctx event b).buffer ≡ b.buffer ++ event ∷ []
  unfolding append_event start_timer
  append_event-buffer ctx event b = elim (Bool-cases (length (b.buffer ++ event ∷ []) == 1)) [
    | inl e ↦ rw e
    | inr e ↦ rw e
  ]

  -- The buffer behind a call.
  deliver-buffer :
      (max_size : ℕ) (ctx : C) (event : A) (b : Batch C A)
      → (deliver max_size ctx event b).buffer
        ≡ (if leb max_size (length (b.buffer ++ event ∷ [])) then [] else b.buffer ++ event ∷ [])
  unfolding deliver stop_timer
  deliver-buffer max_size ctx event b =
      let same = append_event-buffer ctx event b in
      elim (Bool-cases (leb max_size (length (b.buffer ++ event ∷ [])))) [
        | inl e ↦ rw (same, deliver, e)
        | inr e ↦ rw (same, deliver, e) same
      ]

  pub flush_timed-buffer : (b : Batch C A) → (flush_timed b).buffer ≡ []
  unfolding flush_timed
  flush_timed-buffer b = elim (List-cases b.buffer) [
    | inl e ↦ rw (e, flush_timed) e
    | inr (x, xs, e) ↦ rw (e, flush_timed)
  ]

  pub close-buffer : (b : Batch C A) → (close b).buffer ≡ []
  unfolding close stop_timer
  close-buffer b = elim (List-cases b.buffer) [
    | inl e ↦ rw (e, close) e
    | inr (x, xs, e) ↦ rw (e, close)
  ]

  fail_batch-buffer :
      (t : Trigger) (batch : List A) (b : Batch C A) → (fail_batch t batch b).buffer ≡ b.buffer
  unfolding fail_batch
  fail_batch-buffer by_size batch b = refl
  fail_batch-buffer by_time batch b = refl
  fail_batch-buffer by_close batch b = refl

  land-buffer :
      (f : Flight C A) (failed : Bool) (b : Batch C A) → (land f failed b).buffer ≡ b.buffer
  unfolding land
  land-buffer f false b = refl
  land-buffer f true b = fail_batch-buffer f.trigger f.batch b

  module _ (max_size : ℕ) where
    -- What a step takes, and what it leaves in the buffer.
    step-buffer :
        (b b' : Batch C A) (more : List A) (taken : List (List A))
        → Step max_size b more taken b'
        → flatten taken ++ b'.buffer ≡ b.buffer ++ more
    step-buffer _ _ _ _ (delivers ctx event b) =
        let full = leb max_size (length (b.buffer ++ event ∷ [])) in
        rw (deliver-buffer max_size ctx event b) (flatten-taken_if full (b.buffer ++ event ∷ []))
    step-buffer _ _ _ _ (fires i b armed) = sym (append-nil b.buffer)
    step-buffer _ _ _ _ (flushes b waiting) = rw (flush_timed-buffer b) (flatten-emptied b.buffer)
    step-buffer _ _ _ _ (closes b) = rw (close-buffer b) (flatten-emptied b.buffer)
    step-buffer _ _ _ _ (lands before after f failed b e) =
        land-buffer f failed _ ∙ sym (append-nil b.buffer)

    abbrev Bounded : Batch C A → List (List A) → Type 0
    Bounded b taken = (length b.buffer < limit max_size) × All (IsBatch max_size) taken

    step-Bounded :
        (b b' : Batch C A) (more : List A) (taken : List (List A))
        → Step max_size b more taken b'
        → length b.buffer < limit max_size
        → Bounded b' taken
    step-Bounded _ _ _ _ (delivers ctx event b) h =
        rw (deliver-buffer max_size ctx event b) (taken_if-Bounded max_size b.buffer event h)
    step-Bounded _ _ _ _ (fires i b armed) h = (h, tt)
    step-Bounded _ _ _ _ (flushes b waiting) h =
        rw (flush_timed-buffer b) (limit-positive max_size, taken_all-IsBatch max_size b.buffer h)
    step-Bounded _ _ _ _ (closes b) h =
        rw (close-buffer b) (limit-positive max_size, taken_all-IsBatch max_size b.buffer h)
    step-Bounded _ _ _ _ (lands before after f failed b e) h =
        (rw (land-buffer f failed (record b { in_flight = before ++ after })) h, tt)

    -- The batches taken, one after the other, and then the buffer, are the events that entered, each
    -- once and in order; every batch has an event and at most as many as the limit, or one where
    -- that is 0, and the buffer has fewer.
    pub Reaches-taken :
        (events : List A) (batches : List (List A)) (b : Batch C A)
        → Reaches max_size events batches b
        → (flatten batches ++ b.buffer ≡ events)
          × All (IsBatch max_size) batches
          × (length b.buffer < limit max_size)
    Reaches-taken _ _ _ start = (refl, tt, limit-positive max_size)
    Reaches-taken _ _ b' (next {events} {more} {batches} {taken} {b} r step) =
        let (same, bounds, short) = Reaches-taken events batches b r in
        let (short', taken_bounds) = step-Bounded b b' more taken step short in
        (
          flatten-append_with batches taken b'.buffer
              ∙ ap (λ xs. flatten batches ++ xs) (step-buffer b b' more taken step)
              ∙ sym (append_assoc (flatten batches) b.buffer more)
              ∙ ap (λ xs. xs ++ more) same,
          All-append (IsBatch max_size) batches taken bounds taken_bounds,
          short',
        )
