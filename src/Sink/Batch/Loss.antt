-- ===== src/Sink/Batch/Loss.antt =====
-- Events that `Deliver` took with a nil error and that no one gets.
use waltap.Prelude.{
  ℕ, ◌-◌, ◌≡◌, refl, ap, ◌∙◌, true, false, inl, inr, List, [], ◌∷◌, ◌++◌, length, ◌==◌, leb,
  Bool-cases,
}
use waltap.Sink.Batch.{
  Flight, by_time, Batch, start_timer, append_event, launch, deliver, fire, flush_timed, land,
  fail_batch,
}
use waltap.Sink.Batch.Taken.{append_event-buffer}

snoc-some : {A : Type 0} (xs : List A) (x : A) → (y : A) × (ys : List A) × (xs ++ x ∷ [] ≡ y ∷ ys)
snoc-some [] x = (x, [], refl)
snoc-some (y ∷ ys) x = (y, ys ++ x ∷ [], refl)

module _ {C A : Type 0} where
  -- The places of batches stay.
  abbrev pub SamePlaces : Batch C A → Batch C A → Type 0
  SamePlaces b b' =
      (b'.in_flight ≡ b.in_flight)
      × (b'.delivered ≡ b.delivered)
      × (b'.reported ≡ b.reported)
      × (b'.logged ≡ b.logged)

  append_event-SamePlaces :
      (ctx : C) (event : A) (b : Batch C A) → SamePlaces b (append_event ctx event b)
  unfolding append_event start_timer
  append_event-SamePlaces ctx event b = elim (Bool-cases (length (b.buffer ++ event ∷ []) == 1)) [
    | inl e ↦ rw e (refl, refl, refl, refl)
    | inr e ↦ rw e (refl, refl, refl, refl)
  ]

  deliver-waits :
      (max_size : ℕ) (ctx : C) (event : A) (b : Batch C A)
      → leb max_size (length (b.buffer ++ event ∷ [])) ≡ false
      → deliver max_size ctx event b ≡ append_event ctx event b
  unfolding deliver
  deliver-waits max_size ctx event b e = rw (append_event-buffer ctx event b, deliver, e)

  abbrev flush_of : Batch C A → List A → Batch C A
  flush_of b ys = elim ys [
    | [] ↦ record b { waiting = b.waiting - 1; flushed = true }
    | _ ∷ _ ↦ launch by_time b.flush_ctx (record b { waiting = b.waiting - 1 })
  ]

  flush_timed-some :
      (b : Batch C A) (x : A) (xs : List A)
      → b.buffer ≡ x ∷ xs
      → flush_timed b ≡ launch by_time b.flush_ctx (record b { waiting = b.waiting - 1 })
  unfolding flush_timed
  flush_timed-some b x xs e = ap (flush_of b) e

  -- What a failed flush by the timer leaves.
  pub record Lost (events : List A) (b b' : Batch C A) : Type 0 where
    pub flight : Flight C A
    pub under_way : b'.in_flight ≡ b.in_flight ++ flight ∷ []
    pub emptied : (land flight true (record b' { in_flight = b.in_flight })).buffer ≡ []
    pub not_delivered :
        (land flight true (record b' { in_flight = b.in_flight })).delivered ≡ b.delivered
    pub not_reported :
        (land flight true (record b' { in_flight = b.in_flight })).reported ≡ b.reported
    pub logged :
        (land flight true (record b' { in_flight = b.in_flight })).logged ≡ b.logged ++ events ∷ []

  -- A call that adds an event without filling the buffer returns nil; where the next flush is the
  -- timer's and its delivery fails, the event and all that waited with it are gone from the buffer,
  -- neither delivered nor reported as an error to any caller: the failure is only logged.
  pub timed_failure-Lost :
      (max_size i : ℕ) (ctx : C) (event : A) (b : Batch C A)
      → leb max_size (length (b.buffer ++ event ∷ [])) ≡ false
      → Lost (b.buffer ++ event ∷ []) b (flush_timed (fire i (deliver max_size ctx event b)))
  unfolding land fail_batch
  timed_failure-Lost max_size i ctx event b e =
      let b1 = append_event ctx event b in
      let (flights, del, rep, log) = append_event-SamePlaces ctx event b in
      let same = append_event-buffer ctx event b in
      let f : Flight C A = record { trigger = by_time; ctx = b1.flush_ctx; batch = b1.buffer } in
      let (x, xs, full) = snoc-some b.buffer event in
      rw (deliver-waits max_size ctx event b e, flush_timed-some (fire i b1) x xs (same ∙ full))
        (record {
          flight = f;
          under_way = ap (λ fs. fs ++ f ∷ []) flights;
          emptied = refl;
          not_delivered = del;
          not_reported = rep;
          logged = rw (same, log);
        })
