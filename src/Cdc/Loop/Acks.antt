-- ===== src/Cdc/Loop/Acks.antt =====
-- What the loop has processed while it runs, and what it acknowledges where processing failed.
use waltap.Prelude.{
  ℕ, ◌≡◌, refl, sym, ◌∙◌, ap, true, ◌⊎◌, inl, inr, none, some, List, [], ◌∷◌, ◌++◌, arith, ltb,
  if◌then◌else◌, Bool-cases,
}
use waltap.Cdc.Filter.{Filter}
use waltap.Cdc.Stream.{
  XlogData, StreamError, Deps, Stream, after_done, Ending, done, failed, crashed, process_message,
}
use waltap.Cdc.Loop.{
  Protocol, Round, Loop, LoopError, process_failed, Exit, running, shut_down, stopped, panicked,
  ack_position, xlog_end, exit_of, loop_round, go_on, run_loop, final_ack, leave, message_loop,
}
use waltap.Cdc.Loop.Receipts.{xlog_in, RoundEnd, quiet, brings, loop_round-RoundEnd}

-- The WAL data of a schedule, in order.
unfoldable pub xlogs : Protocol → List Round → List XlogData
unfolding xlog_in
xlogs protocol [] = []
xlogs protocol (r ∷ rs) = elim (xlog_in protocol r.received) [
  | none ↦ xlogs protocol rs
  | some xlog ↦ xlog ∷ xlogs protocol rs
]

go_on-running :
    {H E : Type 0} (next : Loop H → Loop H × Exit E) (x : Loop H × Exit E) (l' : Loop H)
    → go_on next x ≡ (l', running)
    → (x.1 ≡ running) × (next x.0 ≡ (l', running))
go_on-running next (l, running) l' e = (refl, e)
go_on-running next (l, shut_down) l' e = cc
go_on-running next (l, stopped f) l' e = cc
go_on-running next (l, panicked) l' e = cc

pub go_on_cases :
    {H E : Type 0} (next : Loop H → Loop H × Exit E) (x y : Loop H × Exit E)
    → go_on next x ≡ y
    → ((x.1 ≡ running) × (next x.0 ≡ y)) ⊎ (x ≡ y)
go_on_cases next (l, running) y e = inl (refl, e)
go_on_cases next (l, shut_down) y e = inr e
go_on_cases next (l, stopped f) y e = inr e
go_on_cases next (l, panicked) y e = inr e

exit_of-failed :
    {E : Type 0} (end : Ending E) (e : StreamError E)
    → exit_of end ≡ stopped (process_failed e)
    → end ≡ failed e
exit_of-failed done e h = cc
exit_of-failed (failed f) e h = cc
exit_of-failed crashed e h = cc

pub exit_of-running : {E : Type 0} (end : Ending E) → exit_of end ≡ running → end ≡ done
exit_of-running done e = refl
exit_of-running (failed f) e = cc
exit_of-running crashed e = cc

module _ {V H E : Type 0} (deps : Deps V H E) (filter : Filter) (protocol : Protocol) where
  -- The messages one after the other, up to one that fails.
  unfoldable pub process_all : List XlogData → Stream H → Stream H × Ending E
  unfolding process_message
  process_all [] s = (s, done)
  process_all (xlog ∷ rest) s = after_done (process_all rest) (process_message deps filter s xlog)

  process_all-nil : (s : Stream H) → process_all (xlogs protocol []) s ≡ (s, done)
  unfolding process_all xlogs
  process_all-nil s = refl

  pub process_all-step :
      (s t : Stream H) (xlog : XlogData) (rest : List XlogData)
      → process_message deps filter s xlog ≡ (t, done)
      → process_all (xlog ∷ rest) s ≡ process_all rest t
  unfolding process_all
  process_all-step s t xlog rest e = rw e

  -- One round that leaves the loop running.
  round_running :
      (l : Loop H) (r : Round) (rs : List Round) (x : Loop H × Exit E)
      → RoundEnd deps filter protocol l r x
      → x.1 ≡ running
      → process_all (xlogs protocol (r ∷ rs)) l.stream ≡ process_all (xlogs protocol rs) x.0.stream
  unfolding xlogs
  round_running l r rs x (quiet n h) e =
      let (none_in, same, kept) = h e in
      rw (none_in, xlogs) (ap (process_all (xlogs protocol rs)) (sym same))
  round_running l r rs x (brings xlog end i p q f) e =
      let ended = exit_of-running end (sym f ∙ e) in
      rw (i, xlogs) (process_all-step l.stream x.0.stream xlog (xlogs protocol rs) (rw ended at p))

  -- While the loop runs it has processed every message of the schedule, each once, in order and
  -- without an error, whatever timeouts, keepalives and acknowledgments came between.
  pub run_loop-process_all :
      (rs : List Round) (l l' : Loop H)
      → run_loop deps filter protocol rs l ≡ (l', running)
      → process_all (xlogs protocol rs) l.stream ≡ (l'.stream, done)
  unfolding run_loop
  run_loop-process_all [] l l' e =
      process_all-nil l.stream ∙ ap (λ (x : Loop H × Exit E). (x.0.stream, done)) e
  run_loop-process_all (r ∷ rs) l l' e =
      let x = loop_round deps filter protocol l r in
      let (on, next) = go_on-running (run_loop deps filter protocol rs) x l' e in
      round_running l r rs x (loop_round-RoundEnd deps filter protocol l r) on
      ∙ run_loop-process_all rs x.0 l' next

  -- A message of the schedule that fails, the ones before it having been processed.
  pub record FailedAt (rs : List Round) (l l' : Loop H) (e : StreamError E) : Type 0 where
    pub before : List XlogData
    pub after : List XlogData
    pub stream : Stream H
    pub xlog : XlogData
    pub position : xlogs protocol rs ≡ before ++ xlog ∷ after
    pub processed : process_all before l.stream ≡ (stream, done)
    pub failure : process_message deps filter stream xlog ≡ (l'.stream, failed e)
    pub received : l'.last_received ≡ xlog_end xlog

  failed_first :
      (l l' : Loop H) (r : Round) (rs : List Round) (x : Loop H × Exit E) (e : StreamError E)
      → RoundEnd deps filter protocol l r x
      → x ≡ (l', stopped (process_failed e))
      → FailedAt (r ∷ rs) l l' e
  unfolding xlogs process_all
  failed_first l l' r rs x e (quiet n h) q = absurd (n e (ap (λ (y : Loop H × Exit E). y.1) q))
  failed_first l l' r rs x e (brings xlog end i p m f) q =
      let ended = exit_of-failed end e (sym f ∙ ap (λ (y : Loop H × Exit E). y.1) q) in
      record {
        before = [];
        after = xlogs protocol rs;
        stream = l.stream;
        xlog = xlog;
        position = rw (i, xlogs);
        processed = refl;
        failure = rw (ended, q) at p;
        received = rw q at m;
      }

  failed_later :
      (l l' : Loop H) (r : Round) (rs : List Round) (x : Loop H × Exit E) (e : StreamError E)
      → RoundEnd deps filter protocol l r x
      → x.1 ≡ running
      → FailedAt rs x.0 l' e
      → FailedAt (r ∷ rs) l l' e
  unfolding xlogs
  failed_later l l' r rs x e (quiet n h) on t =
      let (none_in, same, kept) = h on in
      record {
        before = t.before;
        after = t.after;
        stream = t.stream;
        xlog = t.xlog;
        position = rw (none_in, xlogs) t.position;
        processed = rw same at t.processed;
        failure = t.failure;
        received = t.received;
      }
  failed_later l l' r rs x e (brings xlog end i p m f) on t =
      let ended = exit_of-running end (sym f ∙ on) in
      record {
        before = xlog ∷ t.before;
        after = t.after;
        stream = t.stream;
        xlog = t.xlog;
        position = rw (i, xlogs) (ap (λ rest. xlog ∷ rest) t.position);
        processed =
            process_all-step l.stream x.0.stream xlog t.before (rw ended at p) ∙ t.processed;
        failure = t.failure;
        received = t.received;
      }

  run_loop-FailedAt :
      (rs : List Round) (l l' : Loop H) (e : StreamError E)
      → run_loop deps filter protocol rs l ≡ (l', stopped (process_failed e))
      → FailedAt rs l l' e
  unfolding run_loop
  run_loop-FailedAt [] l l' e h = absurd (cc)
  run_loop-FailedAt (r ∷ rs) l l' e h =
      let x = loop_round deps filter protocol l r in
      elim (go_on_cases (run_loop deps filter protocol rs) x (l', stopped (process_failed e)) h) [
        | inr now ↦ failed_first l l' r rs x e (loop_round-RoundEnd deps filter protocol l r) now
        | inl (on, next) ↦
            failed_later l l' r rs x e (loop_round-RoundEnd deps filter protocol l r) on
              (run_loop-FailedAt rs x.0 l' e next)
      ]

  final_ack-leave :
      (l : Loop H) (position : ℕ) (e : LoopError E)
      → l.last_received ≡ position
      → leave true (l, stopped e) ≡ (
          if ltb l.last_acked position
          then (record l { acks = l.acks ++ ack_position position ∷ [] }, stopped e)
          else (l, stopped e))
  unfolding final_ack
  final_ack-leave l position e same = elim (Bool-cases (ltb l.last_acked position)) [
    | inl f ↦ ground arith
    | inr f ↦ ground arith
  ]

  -- Where the loop stops because a message fails, the messages before it have been processed, and
  -- the deferred call acknowledges the end of the message that failed, as if it had been handled,
  -- unless that position is not above the last acknowledged one.
  pub failed_message_acknowledged :
      (rs : List Round) (l l' : Loop H) (e : StreamError E)
      → run_loop deps filter protocol rs l ≡ (l', stopped (process_failed e))
      → (t : FailedAt rs l l' e) × (message_loop deps filter protocol true rs l ≡ (
          if ltb l'.last_acked (xlog_end t.xlog)
          then (
            record l' { acks = l'.acks ++ ack_position (xlog_end t.xlog) ∷ [] },
            stopped (process_failed e),
          )
          else (l', stopped (process_failed e))))
  unfolding message_loop final_ack
  failed_message_acknowledged rs l l' e h =
      let t = run_loop-FailedAt rs l l' e h in
      (t, rw (h, message_loop) (final_ack-leave l' (xlog_end t.xlog) (process_failed e) t.received))
