-- ===== src/Cdc/Loop.antt =====
-- internal/cdc/stream.go: `messageLoop`, round by round. What each round meets from outside is a
-- record; the positions that are reported to PostgreSQL are kept in order.
pub mod Receipts
pub mod Acks
pub mod HandedOver
pub mod Positions
use waltap.Prelude.{
  ℕ, zero, suc, ◌+◌, ◌%◌, ◌^◌, Bool, true, false, ◌&&◌, Option, none, some, List, [], ◌∷◌, ◌++◌,
  ◌==◌, ltb, if◌then◌else◌, Bytes, length,
}
use waltap.Cdc.Filter.{Filter}
use waltap.Cdc.Stream.{
  XlogData, StreamError, Deps, Stream, Ending, done, failed, crashed, process_message,
}

-- The replication protocol's messages inside CopyData, as pglogrepl reads them: the two message
-- bytes, whether a keepalive asks for a reply, and the WAL data with its start.
pub record Protocol : Type 0 where
  pub keepalive_id : ℕ
  pub xlog_data_id : ℕ
  pub parse_keepalive : Bytes → Option Bool
  pub parse_xlog_data : Bytes → Option XlogData

-- What `ReceiveMessage` gives; a failure comes with what `ctx.Err()` says after it.
pub data Received : Type 0 where
  timed_out : Received
  receive_failed : (cancelled : Bool) → Received
  other_message : Received
  copy_data : Bytes → Received

-- A round: whether the context is cancelled, the clock at the test and behind an
-- acknowledgment, whether the acknowledgment and the reply can be sent, and what is received.
pub record Round : Type 0 where
  pub cancelled : Bool
  pub now : ℕ
  pub now_acked : ℕ
  pub ack_sent : Bool
  pub reply_sent : Bool
  pub received : Received

-- The local variables, the stream, and what was reported.
pub record Loop (H : Type 0) : Type 0 where
  pub stream : Stream H
  pub last_received : ℕ
  pub last_acked : ℕ
  pub next_ack_time : ℕ
  pub acks : List ℕ

pub data LoopError (E : Type 0) : Type 0 where
  ack_failed receive_error bad_keepalive keepalive_reply_failed bad_xlog_data : LoopError E
  process_failed : StreamError E → LoopError E

pub data Exit (E : Type 0) : Type 0 where
  running : Exit E
  shut_down : Exit E
  stopped : LoopError E → Exit E
  panicked : Exit E

-- 10 seconds, in nanoseconds
abbrev pub ack_interval : ℕ
ack_interval = 10_000_000_000

-- What `sendAck` reports as written, flushed and applied; an LSN is a uint64.
abbrev pub ack_position : ℕ → ℕ
ack_position lsn = (lsn + 1) % 2 ^ 64

unfoldable pub xlog_end : XlogData → ℕ
xlog_end xlog = (xlog.wal_start + length xlog.wal_data) % 2 ^ 64

module _ {H : Type 0} where
  -- The variables in front of the loop, by the clock.
  abbrev pub start_loop : ℕ → Stream H → Loop H
  start_loop now stream = record {
    stream = stream;
    last_received = 0;
    last_acked = 0;
    next_ack_time = now + ack_interval;
    acks = [];
  }

  -- The periodic acknowledgment: the loop after it, or `none` where it cannot be sent.
  unfoldable pub periodic_ack : Loop H → Round → Option (Loop H)
  periodic_ack l r =
      if ltb l.next_ack_time r.now && ltb l.last_acked l.last_received
      then (if r.ack_sent
          then some (record l {
            last_acked = l.last_received;
            next_ack_time = r.now_acked + ack_interval;
            acks = l.acks ++ ack_position l.last_received ∷ [];
          })
          else none)
      else some l

  -- The deferred call: it runs however the loop is left.
  unfoldable pub final_ack : Bool → Loop H → Loop H
  final_ack sent l =
      if ltb l.last_acked l.last_received && sent
      then record l { acks = l.acks ++ ack_position l.last_received ∷ [] }
      else l

abbrev pub exit_of : {E : Type 0} → Ending E → Exit E
exit_of done = running
exit_of (failed e) = stopped (process_failed e)
exit_of crashed = panicked

module _ {H E : Type 0} where
  -- Behind `processMessage`: the position was moved before it.
  abbrev pub processed : Loop H → ℕ → Stream H × Ending E → Loop H × Exit E
  processed l position (s', end) = (record l { stream = s'; last_received = position }, exit_of end)

  -- The keepalive case.
  unfoldable pub receive_keepalive : Loop H → Bool → Bool → Loop H × Exit E
  receive_keepalive l reply_requested reply_sent =
      if reply_requested
      then (if reply_sent
          then (record l { acks = l.acks ++ ack_position l.last_received ∷ [] }, running)
          else (l, stopped keepalive_reply_failed))
      else (l, running)

  abbrev pub go_on : (Loop H → Loop H × Exit E) → Loop H × Exit E → Loop H × Exit E
  go_on next (l, running) = next l
  go_on next (l, exit) = (l, exit)

  -- A schedule that ends while the loop runs has not left it yet.
  abbrev pub leave : Bool → Loop H × Exit E → Loop H × Exit E
  leave sent (l, running) = (l, running)
  leave sent (l, exit) = (final_ack sent l, exit)

module _ {V H E : Type 0} (deps : Deps V H E) (filter : Filter) (protocol : Protocol) where
  -- The XLogData case.
  unfoldable pub receive_xlog : Loop H → XlogData → Loop H × Exit E
  unfolding process_message xlog_end
  receive_xlog l xlog = processed l (xlog_end xlog) (process_message deps filter l.stream xlog)

  -- The `switch` on the first byte of CopyData, which panics on no byte.
  unfoldable pub receive_copy_data : Loop H → Bool → Bytes → Loop H × Exit E
  unfolding receive_xlog receive_keepalive
  receive_copy_data l reply_sent [] = (l, panicked)
  receive_copy_data l reply_sent (id ∷ body) =
      if id == protocol.keepalive_id
      then elim (protocol.parse_keepalive body) [
        | none ↦ (l, stopped bad_keepalive)
        | some reply_requested ↦ receive_keepalive l reply_requested reply_sent
      ]
      else if id == protocol.xlog_data_id
      then elim (protocol.parse_xlog_data body) [
        | none ↦ (l, stopped bad_xlog_data)
        | some xlog ↦ receive_xlog l xlog
      ]
      else (l, running)

  unfoldable pub receive : Loop H → Bool → Received → Loop H × Exit E
  unfolding receive_copy_data
  receive l reply_sent timed_out = (l, running)
  receive l reply_sent (receive_failed true) = (l, shut_down)
  receive l reply_sent (receive_failed false) = (l, stopped receive_error)
  receive l reply_sent other_message = (l, running)
  receive l reply_sent (copy_data bytes) = receive_copy_data l reply_sent bytes

  unfoldable pub loop_round : Loop H → Round → Loop H × Exit E
  unfolding periodic_ack receive
  loop_round l r = if r.cancelled then (l, shut_down) else elim (periodic_ack l r) [
    | none ↦ (l, stopped ack_failed)
    | some l' ↦ receive l' r.reply_sent r.received
  ]

  -- The rounds of a schedule, up to the one that leaves the loop.
  unfoldable pub run_loop : List Round → Loop H → Loop H × Exit E
  unfolding loop_round
  run_loop [] l = (l, running)
  run_loop (r ∷ rs) l = go_on (run_loop rs) (loop_round l r)

  unfoldable pub message_loop : Bool → List Round → Loop H → Loop H × Exit E
  unfolding run_loop final_ack
  message_loop final_sent rs l = leave final_sent (run_loop rs l)
