-- ===== src/Cdc/Loop/Positions.antt =====
-- Which positions the loop reports before it is left.
use waltap.Prelude.{
  ℕ, ◌+◌, ◌≡◌, refl, sym, ◌∙◌, ap, Bool, true, false, inl, inr, none, some, List, [], ◌∷◌, ◌++◌,
  append-nil, append_assoc, All, All-append, ◌==◌, ltb, ◌&&◌, if◌then◌else◌, Bool-cases,
  Option-cases,
}
use waltap.Cdc.Filter.{Filter}
use waltap.Cdc.Stream.{XlogData, Deps, Stream, done}
use waltap.Cdc.Loop.{
  Protocol, Received, timed_out, receive_failed, other_message, copy_data, Round, Loop, Exit,
  running, ack_interval, ack_position, xlog_end, receive_keepalive, receive_xlog, receive_copy_data,
  receive, periodic_ack, loop_round, run_loop, Exit,
}
use waltap.Cdc.Loop.Receipts.{
  RoundEnd, quiet, brings, loop_round-RoundEnd, loop_round_cases, periodic_ack-keeps,
}
use waltap.Cdc.Loop.Acks.{xlogs, process_all, process_all-step, exit_of-running, go_on_cases}

-- Behind these messages the last received position is the end of the last of them.
abbrev pub last_end : ℕ → List XlogData → ℕ
last_end position [] = position
last_end position (xlog ∷ rest) = last_end (xlog_end xlog) rest

same_position :
    (p q : ℕ) (acks : List ℕ)
    → p ≡ q
    → All (λ a. a ≡ ack_position p) acks
    → All (λ a. a ≡ ack_position q) acks
same_position p q [] e h = tt
same_position p q (a ∷ acks) e h = (h.0 ∙ ap (λ n. ack_position n) e, same_position p q acks e h.1)

module _ {V H E : Type 0} (deps : Deps V H E) (filter : Filter) (protocol : Protocol) where
  -- A reported position: the messages up to it have been processed without an error, and it is the
  -- end of the last of them.
  pub record Reported (rs : List Round) (l : Loop H) (ack : ℕ) : Type 0 where
    pub before : List XlogData
    pub after : List XlogData
    pub stream : Stream H
    pub split : xlogs protocol rs ≡ before ++ after
    pub processed : process_all deps filter protocol before l.stream ≡ (stream, done)
    pub position : ack ≡ ack_position (last_end l.last_received before)

  -- What a step reports: the last received position, or nothing.
  abbrev Reports : Loop H → Loop H → Type 0
  Reports l l' =
      (added : List ℕ) × (l'.acks ≡ l.acks ++ added)
      × All (λ a. a ≡ ack_position l.last_received) added

  no_report : (l l' : Loop H) → l'.acks ≡ l.acks → Reports l l'
  no_report l l' e = ([], e ∙ sym (append-nil l.acks), tt)

  receive_keepalive-Reports :
      (l : Loop H) (reply sent : Bool) → Reports l (receive_keepalive {E = E} l reply sent).0
  unfolding receive_keepalive
  receive_keepalive-Reports l false sent = no_report l l refl
  receive_keepalive-Reports l true true = (ack_position l.last_received ∷ [], refl, (refl, tt))
  receive_keepalive-Reports l true false = no_report l l refl

  receive_xlog-Reports :
      (l : Loop H) (xlog : XlogData) → Reports l (receive_xlog deps filter protocol l xlog).0
  unfolding receive_xlog
  receive_xlog-Reports l xlog = no_report l (receive_xlog deps filter protocol l xlog).0 refl

  receive-Reports :
      (l : Loop H) (sent : Bool) (r : Received)
      → Reports l (receive deps filter protocol l sent r).0
  unfolding receive receive_copy_data
  receive-Reports l sent timed_out = no_report l l refl
  receive-Reports l sent (receive_failed true) = no_report l l refl
  receive-Reports l sent (receive_failed false) = no_report l l refl
  receive-Reports l sent other_message = no_report l l refl
  receive-Reports l sent (copy_data []) = no_report l l refl
  receive-Reports l sent (copy_data (id ∷ body)) = elim (Bool-cases (id == protocol.keepalive_id)) [
    | inl k ↦ elim (Option-cases (protocol.parse_keepalive body)) [
      | inl e ↦ rw (k, e) (no_report l l refl)
      | inr (reply, e) ↦ rw (k, e) (receive_keepalive-Reports l reply sent)
    ]
    | inr k ↦ elim (Bool-cases (id == protocol.xlog_data_id)) [
      | inl w ↦ elim (Option-cases (protocol.parse_xlog_data body)) [
        | inl e ↦ rw (k, w, e) (no_report l l refl)
        | inr (xlog, e) ↦ rw (k, w, e) (receive_xlog-Reports l xlog)
      ]
      | inr w ↦ rw (k, w) (no_report l l refl)
    ]
  ]

  sent-Reports :
      (l l' acked : Loop H) (due sent : Bool)
      → acked.acks ≡ l.acks ++ ack_position l.last_received ∷ []
      → (if due then (if sent then some acked else none) else some l) ≡ some l'
      → Reports l l'
  sent-Reports l l' acked true true added e =
      let same : acked ≡ l' = cc in
      (
        ack_position l.last_received ∷ [],
        ap (λ (k : Loop H). k.acks) (sym same) ∙ added,
        (refl, tt),
      )
  sent-Reports l l' acked true false added e = absurd cc
  sent-Reports l l' acked false sent added e =
      let same : l ≡ l' = cc in no_report l l' (ap (λ (k : Loop H). k.acks) (sym same))

  periodic_ack-Reports : (l l' : Loop H) (r : Round) → periodic_ack l r ≡ some l' → Reports l l'
  unfolding periodic_ack
  periodic_ack-Reports l l' r e =
      sent-Reports l l'
        (record l {
          last_acked = l.last_received;
          next_ack_time = r.now_acked + ack_interval;
          acks = l.acks ++ ack_position l.last_received ∷ [];
        })
        (ltb l.next_ack_time r.now && ltb l.last_acked l.last_received) r.ack_sent refl e

  Reports-chain :
      (l l' k : Loop H)
      → l'.last_received ≡ l.last_received
      → Reports l l'
      → Reports l' k
      → Reports l k
  Reports-chain l l' k kept (first, acks1, all1) (second, acks2, all2) = (
    first ++ second,
    acks2 ∙ ap (λ xs. xs ++ second) acks1 ∙ append_assoc l.acks first second,
    All-append (λ a. a ≡ ack_position l.last_received) first second all1
        (same_position l'.last_received l.last_received second kept all2),
  )

  loop_round-Reports : (l : Loop H) (r : Round) → Reports l (loop_round deps filter protocol l r).0
  loop_round-Reports l r = elim (loop_round_cases deps filter protocol l r) [
    | inl (inl e) ↦ rw e (no_report l l refl)
    | inl (inr e) ↦ rw e (no_report l l refl)
    | inr (l', ack, e) ↦
        let (same, kept) = periodic_ack-keeps deps filter protocol l l' r ack in
        rw e (
          Reports-chain l l' (receive deps filter protocol l' r.reply_sent r.received).0 kept
            (periodic_ack-Reports l l' r ack) (receive-Reports l' r.reply_sent r.received))
  ]

  Reported-now :
      (rs : List Round) (l : Loop H) (added : List ℕ)
      → All (λ a. a ≡ ack_position l.last_received) added
      → All (Reported rs l) added
  unfolding process_all
  Reported-now rs l [] h = tt
  Reported-now rs l (a ∷ added) h = (
    record {
      before = [];
      after = xlogs protocol rs;
      stream = l.stream;
      split = refl;
      processed = refl;
      position = h.0;
    },
    Reported-now rs l added h.1,
  )

  Reported-later :
      (l : Loop H) (r : Round) (rs : List Round) (x : Loop H × Exit E) (a : ℕ)
      → RoundEnd deps filter protocol l r x
      → x.1 ≡ running
      → Reported rs x.0 a
      → Reported (r ∷ rs) l a
  unfolding xlogs
  Reported-later l r rs x a (quiet n h) on t =
      let (none_in, same, kept) = h on in
      record {
        before = t.before;
        after = t.after;
        stream = t.stream;
        split = rw (none_in, xlogs) t.split;
        processed = rw same at t.processed;
        position = rw kept at t.position;
      }
  Reported-later l r rs x a (brings xlog end i p m f) on t =
      let ended = exit_of-running end (sym f ∙ on) in
      record {
        before = xlog ∷ t.before;
        after = t.after;
        stream = t.stream;
        split = rw (i, xlogs) (ap (λ rest. xlog ∷ rest) t.split);
        processed =
            process_all-step deps filter protocol l.stream x.0.stream xlog t.before (rw ended at p)
            ∙ t.processed;
        position = rw m at t.position;
      }

  Reported-All :
      (l : Loop H) (r : Round) (rs : List Round) (x : Loop H × Exit E) (added : List ℕ)
      → RoundEnd deps filter protocol l r x
      → x.1 ≡ running
      → All (Reported rs x.0) added
      → All (Reported (r ∷ rs) l) added
  Reported-All l r rs x [] end on h = tt
  Reported-All l r rs x (a ∷ added) end on h =
      (Reported-later l r rs x a end on h.0, Reported-All l r rs x added end on h.1)

  -- Every position that the loop reports before it is left, in a periodic acknowledgment or in a
  -- reply to a keepalive, is that of a message up to which all messages of the schedule have been
  -- processed without an error, or the one from before the schedule.
  pub run_loop-Reported :
      (rs : List Round) (l l' : Loop H) (exit : Exit E)
      → run_loop deps filter protocol rs l ≡ (l', exit)
      → (added : List ℕ) × (l'.acks ≡ l.acks ++ added) × All (Reported rs l) added
  unfolding run_loop
  run_loop-Reported [] l l' exit e =
      ([], ap (λ (x : Loop H × Exit E). x.0.acks) (sym e) ∙ sym (append-nil l.acks), tt)
  run_loop-Reported (r ∷ rs) l l' exit e =
      let x = loop_round deps filter protocol l r in
      let (first, acks1, all1) = loop_round-Reports l r in
      elim (go_on_cases (run_loop deps filter protocol rs) x (l', exit) e) [
        | inr now ↦ (
          first,
          sym (ap (λ (y : Loop H × Exit E). y.0.acks) now) ∙ acks1,
          Reported-now (r ∷ rs) l first all1,
        )
        | inl (on, next) ↦
            let (second, acks2, all2) = run_loop-Reported rs x.0 l' exit next in
            (
              first ++ second,
              acks2 ∙ ap (λ xs. xs ++ second) acks1 ∙ append_assoc l.acks first second,
              All-append (Reported (r ∷ rs) l) first second (Reported-now (r ∷ rs) l first all1) (
                  Reported-All l r rs x second (loop_round-RoundEnd deps filter protocol l r) on
                    all2),
            )
      ]
