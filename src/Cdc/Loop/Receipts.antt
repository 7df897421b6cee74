-- ===== src/Cdc/Loop/Receipts.antt =====
-- How one round of the loop ends, and what it leaves alone.
use waltap.Prelude.{
  ◌≡◌, ◌≢◌, refl, ◌∙◌, Bool, true, false, ◌⊎◌, inl, inr, Option, none, some, [], ◌∷◌, arith, ◌==◌,
  if◌then◌else◌, Bool-cases, Option-cases,
}
use waltap.Cdc.Filter.{Filter}
use waltap.Cdc.Stream.{XlogData, StreamError, Deps, Ending, process_message}
use waltap.Cdc.Loop.{
  Protocol, Received, timed_out, receive_failed, other_message, copy_data, Round, Loop, ack_failed,
  bad_xlog_data, process_failed, Exit, running, shut_down, stopped, xlog_end, exit_of, receive_xlog,
  receive_keepalive, receive, periodic_ack, loop_round,
}

-- The WAL data that a round brings.
unfoldable pub xlog_in : Protocol → Received → Option XlogData
xlog_in protocol (copy_data (id ∷ body)) =
    if id == protocol.keepalive_id
    then none
    else if id == protocol.xlog_data_id
    then protocol.parse_xlog_data body
    else none
xlog_in protocol _ = none

module _ {V H E : Type 0} (deps : Deps V H E) (filter : Filter) (protocol : Protocol) where
  -- How a receipt ends: with no WAL data the stream is left alone, and with WAL data it ends as
  -- `processMessage` does, the position being that of the data.
  pub data Receipt (l : Loop H) (r : Received) (l' : Loop H) (exit : Exit E) : Type 0 where
    nothing :
        xlog_in protocol r ≡ none
        → l'.stream ≡ l.stream
        → l'.last_received ≡ l.last_received
        → ((e : StreamError E) → exit ≢ stopped (process_failed e))
        → Receipt l r l' exit
    bad_data : exit ≡ stopped bad_xlog_data → Receipt l r l' exit
    wal_data :
        (xlog : XlogData) (end : Ending E)
        → xlog_in protocol r ≡ some xlog
        → process_message deps filter l.stream xlog ≡ (l'.stream, end)
        → l'.last_received ≡ xlog_end xlog
        → exit ≡ exit_of end
        → Receipt l r l' exit

  receive_xlog-Receipt :
      (l : Loop H) (r : Received) (xlog : XlogData)
      → xlog_in protocol r ≡ some xlog
      → Receipt l r
          (receive_xlog deps filter protocol l xlog).0
          (receive_xlog deps filter protocol l xlog).1
  unfolding receive_xlog
  receive_xlog-Receipt l r xlog e =
      let p = process_message deps filter l.stream xlog in wal_data xlog p.1 e refl refl refl

  receive_keepalive-Receipt :
      (l : Loop H) (r : Received) (reply sent : Bool)
      → xlog_in protocol r ≡ none
      → Receipt l r
          (receive_keepalive {E = E} l reply sent).0
          (receive_keepalive {E = E} l reply sent).1
  unfolding receive_keepalive
  receive_keepalive-Receipt l r false sent e = nothing e refl refl (λ f q. cc)
  receive_keepalive-Receipt l r true true e = nothing e refl refl (λ f q. cc)
  receive_keepalive-Receipt l r true false e = nothing e refl refl (λ f q. cc)

  receive-Receipt :
      (l : Loop H) (sent : Bool) (r : Received)
      → Receipt l r
          (receive deps filter protocol l sent r).0
          (receive deps filter protocol l sent r).1
  unfolding receive xlog_in
  receive-Receipt l sent timed_out = nothing refl refl refl (λ f q. cc)
  receive-Receipt l sent (receive_failed true) = nothing refl refl refl (λ f q. cc)
  receive-Receipt l sent (receive_failed false) = nothing refl refl refl (λ f q. cc)
  receive-Receipt l sent other_message = nothing refl refl refl (λ f q. cc)
  receive-Receipt l sent (copy_data []) = nothing refl refl refl (λ f q. cc)
  receive-Receipt l sent (copy_data (id ∷ body)) = elim (Bool-cases (id == protocol.keepalive_id)) [
    | inl k ↦ elim (Option-cases (protocol.parse_keepalive body)) [
      | inl e ↦ rw (k, e) (nothing (rw (k, xlog_in)) refl refl (λ f q. cc))
      | inr (reply, e) ↦
          rw (k, e)
            (receive_keepalive-Receipt l (copy_data (id ∷ body)) reply sent (rw (k, xlog_in)))
    ]
    | inr k ↦ elim (Bool-cases (id == protocol.xlog_data_id)) [
      | inl w ↦ elim (Option-cases (protocol.parse_xlog_data body)) [
        | inl e ↦ rw (k, w, e) (bad_data refl)
        | inr (xlog, e) ↦
            rw (k, w, e)
              (receive_xlog-Receipt l (copy_data (id ∷ body)) xlog (rw (k, xlog_in, w) e))
      ]
      | inr w ↦ rw (k, w) (nothing (rw (k, xlog_in, w)) refl refl (λ f q. cc))
    ]
  ]

  pub periodic_ack-keeps :
      (l l' : Loop H) (r : Round)
      → periodic_ack l r ≡ some l'
      → (l'.stream ≡ l.stream) × (l'.last_received ≡ l.last_received)
  unfolding periodic_ack
  periodic_ack-keeps l l' r e = ground arith

  -- A round that does not stop before it receives ends as its receipt, from the loop that the
  -- acknowledgment leaves.
  pub loop_round_cases :
      (l : Loop H) (r : Round)
      → ((loop_round deps filter protocol l r ≡ (l, shut_down))
          ⊎ (loop_round deps filter protocol l r ≡ (l, stopped ack_failed)))
        ⊎ ((l' : Loop H) × (periodic_ack l r ≡ some l')
            × (loop_round deps filter protocol l r
                ≡ receive deps filter protocol l' r.reply_sent r.received))
  unfolding loop_round
  loop_round_cases l r = elim (Bool-cases r.cancelled) [
    | inl c ↦ inl (inl (rw c))
    | inr c ↦ elim (Option-cases (periodic_ack l r)) [
      | inl e ↦ inl (inr (rw (c, e)))
      | inr (l', e) ↦ inr (l', e, rw (c, e))
    ]
  ]

  -- The same of a whole round.
  pub data RoundEnd (l : Loop H) (r : Round) (x : Loop H × Exit E) : Type 0 where
    quiet :
        ((e : StreamError E) → x.1 ≢ stopped (process_failed e))
        → (x.1 ≡ running
            → (xlog_in protocol r.received ≡ none)
              × (x.0.stream ≡ l.stream)
              × (x.0.last_received ≡ l.last_received))
        → RoundEnd l r x
    brings :
        (xlog : XlogData) (end : Ending E)
        → xlog_in protocol r.received ≡ some xlog
        → process_message deps filter l.stream xlog ≡ (x.0.stream, end)
        → x.0.last_received ≡ xlog_end xlog
        → x.1 ≡ exit_of end
        → RoundEnd l r x

  Receipt-RoundEnd :
      (l l' : Loop H) (r : Round) (x : Loop H × Exit E)
      → l'.stream ≡ l.stream
      → l'.last_received ≡ l.last_received
      → Receipt l' r.received x.0 x.1
      → RoundEnd l r x
  Receipt-RoundEnd l l' r x same kept (nothing e s p n) = quiet n (λ q. (e, s ∙ same, p ∙ kept))
  Receipt-RoundEnd l l' r x same kept (bad_data e) = quiet (λ f q. cc) (λ q. absurd cc)
  Receipt-RoundEnd l l' r x same kept (wal_data xlog end e p q f) =
      brings xlog end e (rw same at p) q f

  pub loop_round-RoundEnd :
      (l : Loop H) (r : Round) → RoundEnd l r (loop_round deps filter protocol l r)
  loop_round-RoundEnd l r = elim (loop_round_cases l r) [
    | inl (inl e) ↦ rw e (quiet (λ f q. cc) (λ q. absurd cc))
    | inl (inr e) ↦ rw e (quiet (λ f q. cc) (λ q. absurd cc))
    | inr (l', ack, e) ↦ rw e (
        Receipt-RoundEnd l l' r _ (periodic_ack-keeps l l' r ack).0
          (periodic_ack-keeps l l' r ack).1 (receive-Receipt l' r.reply_sent r.received))
  ]
