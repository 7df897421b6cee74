-- ===== src/Cdc/Loop/HandedOver.antt =====
-- The events that the log holds, and what the handler does with them.
use waltap.Prelude.{
  ◌≡◌, ◌↔◌, refl, sym, ap, ◌∙◌, Option, none, some, List, [], ◌∷◌, ◌++◌, append_assoc, append-nil,
  Bytes,
}
use waltap.Cdc.Event.{ChangeEvent}
use waltap.Cdc.Event.Takes.{
  Takes, takes_none, takes, Takes-append, Takes-inv, Takes-none, Takes-split,
}
use waltap.Cdc.Filter.{Filter}
use waltap.Cdc.Stream.{
  XlogData, Deps, Stream, after_done, Ending, done, failed, crashed, handler_ending,
}
use waltap.Cdc.Stream.Decoded.{
  recording, with_log, Beside, silent, hands_over, fails, process_message-Beside,
}
use waltap.Cdc.Loop.{Protocol, Round, Loop, running, run_loop}
use waltap.Cdc.Loop.Acks.{xlogs, process_all, run_loop-process_all}

module _ {V H E : Type 0} (deps : Deps V H E) (filter : Filter) (protocol : Protocol) where
  -- The events of the messages: what the stream hands over if its handler refuses none.
  abbrev pub decoded_events :
      List XlogData → Stream H → List (ChangeEvent V) → Stream (List (ChangeEvent V)) × Ending E
  decoded_events xlogs s log =
      process_all (recording deps filter) filter protocol xlogs (with_log deps filter s log)

  after_done-done :
      {I : Type 0} (next : Stream I → Stream I × Ending E) (x : Stream I × Ending E) (t : Stream I)
      → after_done next x ≡ (t, done)
      → (s : Stream I) × (x ≡ (s, done)) × (next s ≡ (t, done))
  after_done-done next (s, done) t e = (s, refl, e)
  after_done-done next (s, failed f) t e = absurd (cc)
  after_done-done next (s, crashed) t e = absurd (cc)

  handler_ending-done :
      (s t : Stream H) (action : Bytes) (r : H × Option E)
      → handler_ending deps filter s action r ≡ (t, done)
      → (h : H) × (r ≡ (h, none)) × (t ≡ record s { handled = h })
  unfolding handler_ending
  handler_ending-done s t action (h, none) e =
      (h, refl, sym (ap (λ (z : Stream H × Ending E). z.0) e))
  handler_ending-done s t action (h, some f) e = absurd (cc)

  -- One message that the stream gets past.
  Beside-done :
      (s t : Stream H) (log : List (ChangeEvent V)) (x : Stream H × Ending E)
      (y : Stream (List (ChangeEvent V)) × Ending E)
      → Beside deps filter s log x y
      → x ≡ (t, done)
      → (events : List (ChangeEvent V)) × (y ≡ (with_log deps filter t (log ++ events), done))
        × Takes deps.handler events s.handled t.handled
  Beside-done s t log x y (silent u same) e =
      let here : u ≡ t = ap (λ (z : Stream H × Ending E). z.0) e in
      let untouched : s.handled ≡ t.handled = sym same ∙ ap (λ (z : Stream H). z.handled) here in
      ([], rw (here, append-nil log), rw untouched takes_none)
  Beside-done s t log x y (hands_over event action) e =
      let (h, answer, there) = handler_ending-done s t action (deps.handler s.handled event) e in
      (event ∷ [], rw there, rw there (takes answer takes_none))
  Beside-done s t log x y (fails end ne) e = absurd (ne (ap (λ (z : Stream H × Ending E). z.1) e))

  process_all-decoded :
      (xlogs : List XlogData) (s t : Stream H) (log : List (ChangeEvent V))
      → process_all deps filter protocol xlogs s ≡ (t, done)
      → (events : List (ChangeEvent V)) × (decoded_events xlogs s log
          ≡ (with_log deps filter t (log ++ events), done))
        × Takes deps.handler events s.handled t.handled
  unfolding process_all
  process_all-decoded [] s t log e =
      let here : s ≡ t = ap (λ (z : Stream H × Ending E). z.0) e in
      ([], rw (here, append-nil log), rw here takes_none)
  process_all-decoded (xlog ∷ rest) s t log e =
      let (u, first, later) = after_done-done (process_all deps filter protocol rest) _ t e in
      let (one, y, taken) =
        Beside-done s u log _ _ (process_message-Beside deps filter s log xlog) first in
      let (more, z, all) = process_all-decoded rest u t (log ++ one) later in
      (
        one ++ more,
        rw (y, process_all)
            (z ∙ ap (λ l. (with_log deps filter t l, done)) (append_assoc log one more)),
        Takes-append deps.handler one more taken all,
      )

  abbrev pub without_log : Stream (List (ChangeEvent V)) → H → Stream H
  without_log r h = record {
    relations = r.relations;
    current_xid = r.current_xid;
    current_commit_time = r.current_commit_time;
    handled = h;
  }

  Beside-taken :
      (s : Stream H) (r : Stream (List (ChangeEvent V))) (log : List (ChangeEvent V))
      (x : Stream H × Ending E) (y : Stream (List (ChangeEvent V)) × Ending E)
      → Beside deps filter s log x y
      → y ≡ (r, done)
      → (events : List (ChangeEvent V)) × (r.handled ≡ log ++ events)
        × ((h : H) → Takes deps.handler events s.handled h → x ≡ (without_log r h, done))
  unfolding handler_ending
  Beside-taken s r log x y (silent u same) e =
      let here = ap (λ (z : Stream (List (ChangeEvent V)) × Ending E). z.0) e in
      (
        [],
        sym (ap (λ (z : Stream (List (ChangeEvent V))). z.handled) here) ∙ sym (append-nil log),
        λ h t.
            ap (λ k. (record u { handled = k }, done)) (same ∙ Takes-none deps.handler t)
            ∙ ap (λ z. (without_log z h, done)) here,
      )
  Beside-taken s r log x y (hands_over event action) e =
      let here = ap (λ (z : Stream (List (ChangeEvent V)) × Ending E). z.0) e in
      (
        event ∷ [],
        sym (ap (λ (z : Stream (List (ChangeEvent V))). z.handled) here),
        λ h t.
            let (h1, answer, last) = Takes-inv deps.handler event [] t in
            ap (handler_ending deps filter s action) answer
            ∙ ap (λ k. (record s { handled = k }, done)) (Takes-none deps.handler last)
            ∙ ap (λ z. (without_log z h, done)) here,
      )
  Beside-taken s r log x y (fails end ne) e =
      absurd (ne (ap (λ (z : Stream (List (ChangeEvent V)) × Ending E). z.1) e))

append-cancel : {A : Type 0} (xs ys zs : List A) → xs ++ ys ≡ xs ++ zs → ys ≡ zs
append-cancel [] ys zs e = e
append-cancel (x ∷ xs) ys zs e = append-cancel xs ys zs (cc)

-- The recording handler only adds to what it has kept.
Takes-recording :
    {V H E : Type 0} (deps : Deps V H E) (filter : Filter) (events : List (ChangeEvent V))
    {log end : List (ChangeEvent V)}
    → Takes (recording deps filter).handler events log end
    → end ≡ log ++ events
Takes-recording deps filter _ {log} takes_none = sym (append-nil log)
Takes-recording deps filter _ {log} (takes {event} {events} answer more) =
    let kept = ap (λ (z : List (ChangeEvent _) × Option _). z.0) answer in
    Takes-recording deps filter events more
    ∙ ap (λ l. l ++ events) (sym kept)
    ∙ append_assoc log (event ∷ []) events

module _ {V H E : Type 0} (deps : Deps V H E) (filter : Filter) (protocol : Protocol) where
  decoded_events-grow :
      (xlogs : List XlogData) (s r : Stream (List (ChangeEvent V)))
      → process_all (recording deps filter) filter protocol xlogs s ≡ (r, done)
      → (more : List (ChangeEvent V)) × (r.handled ≡ s.handled ++ more)
  decoded_events-grow xlogs s r e =
      let (events, z, taken) =
        process_all-decoded (recording deps filter) filter protocol xlogs s r [] e in
      (events, Takes-recording deps filter events taken)

  process_all-taken :
      (xlogs : List XlogData) (s : Stream H) (h : H) (log events : List (ChangeEvent V))
      (r : Stream (List (ChangeEvent V)))
      → decoded_events deps filter protocol xlogs s log ≡ (r, done)
      → r.handled ≡ log ++ events
      → Takes deps.handler events s.handled h
      → process_all deps filter protocol xlogs s ≡ (without_log deps filter protocol r h, done)
  unfolding process_all
  process_all-taken [] s h log events r e kept t =
      let here = ap (λ (z : Stream (List (ChangeEvent V)) × Ending E). z.0) e in
      let no_events : [] ≡ events =
        append-cancel log [] events
          (append-nil log ∙ ap (λ (z : Stream (List (ChangeEvent V))). z.handled) here ∙ kept) in
      ap (λ k. (record s { handled = k }, done)) (Takes-none deps.handler (rw (sym no_events) at t))
      ∙ ap (λ z. (without_log deps filter protocol z h, done)) here
  process_all-taken (xlog ∷ rest) s h log events r e kept t =
      let (r1, first, later) =
        after_done-done deps filter protocol
          (process_all (recording deps filter) filter protocol rest) _ r e in
      let (one, grown, x) =
        Beside-taken deps filter protocol s r1 log _ _
          (process_message-Beside deps filter s log xlog) first in
      let (more, all) = decoded_events-grow rest r1 r later in
      let split : events ≡ one ++ more =
        append-cancel log events (one ++ more)
          (sym kept ∙ all ∙ ap (λ l. l ++ more) grown ∙ append_assoc log one more) in
      let (h1, front, back) = Takes-split deps.handler one more (rw split at t) in
      rw (x h1 front, process_all)
        (process_all-taken rest (without_log deps filter protocol r1 h1) h r1.handled more r later
          all back)

  -- The stream gets past messages exactly if their events, those that it hands to a handler that
  -- refuses none, are decoded without an error, and the handler takes each of them, once, in order
  -- and without an error: the handler has no part in what is decoded.
  pub process_all-Takes :
      (xlogs : List XlogData) (s t : Stream H)
      → (process_all deps filter protocol xlogs s ≡ (t, done)) ↔ (
          (events : List (ChangeEvent V)) × (decoded_events deps filter protocol xlogs s []
            ≡ (with_log deps filter t events, done))
          × Takes deps.handler events s.handled t.handled)
  process_all-Takes xlogs s t = (
    process_all-decoded deps filter protocol xlogs s t [],
    λ (events, decoded, taken).
        process_all-taken xlogs s t.handled [] events (with_log deps filter t events) decoded refl
          taken,
  )

  -- The same of a loop that runs.
  pub run_loop-Takes :
      (rs : List Round) (l l' : Loop H)
      → run_loop deps filter protocol rs l ≡ (l', running)
      → (events : List (ChangeEvent V)) × (decoded_events deps filter protocol
            (xlogs protocol rs)
            l.stream
            []
          ≡ (with_log deps filter l'.stream events, done))
        × Takes deps.handler events l.stream.handled l'.stream.handled
  run_loop-Takes rs l l' e =
      (process_all-Takes (xlogs protocol rs) l.stream l'.stream).0
        (run_loop-process_all deps filter protocol rs l l' e)
