-- ===== src/Cdc/Stream/Decoded.antt =====
-- What the stream decodes does not depend on its handler.
use waltap.Prelude.{
  ℕ, ◌≡◌, ◌≢◌, refl, inl, inr, Option, none, List, [], ◌∷◌, ◌++◌, Bytes, codes, Bool-cases, Outcome,
  ok, err, panic, Option-cases,
}
use waltap.Cdc.Event.{ChangeEvent}
use waltap.Cdc.Filter.{Filter, match_event}
use waltap.Cdc.Decode.{Column}
use waltap.Cdc.Stream.{
  Message, begin, commit, relation, insert, update, delete, truncate, other, XlogData, StreamError,
  bad_message, Deps, Stream, Ending, done, failed, crashed, handler_ending, deliver_if_match,
  row_event, change, deliver, process, process_message,
}

module _ {V H E : Type 0} (deps : Deps V H E) (filter : Filter) where
  -- The same stream with a handler that keeps every event and refuses none.
  abbrev pub recording : Deps V (List (ChangeEvent V)) E
  recording = record {
    parse = deps.parse;
    lsn_string = deps.lsn_string;
    codecs = deps.codecs;
    handler = λ log event. (log ++ event ∷ [], none);
  }

  abbrev pub with_log : Stream H → List (ChangeEvent V) → Stream (List (ChangeEvent V))
  with_log s log = record {
    relations = s.relations;
    current_xid = s.current_xid;
    current_commit_time = s.current_commit_time;
    handled = log;
  }

  -- How a call ends beside the same call with the recording handler.
  pub data Beside (s : Stream H) (log : List (ChangeEvent V))
      : Stream H × Ending E → Stream (List (ChangeEvent V)) × Ending E → Type 0 where
    silent : (t : Stream H) → t.handled ≡ s.handled → Beside s log (t, done) (with_log t log, done)
    hands_over :
        (event : ChangeEvent V) (action : Bytes)
        → Beside s log
            (handler_ending deps filter s action (deps.handler s.handled event))
            (with_log s (log ++ event ∷ []), done)
    fails : (end : Ending E) → end ≢ done → Beside s log (s, end) (with_log s log, end)

  deliver-Beside :
      (s : Stream H) (log : List (ChangeEvent V)) (o : Outcome (StreamError E) (ChangeEvent V))
      → Beside s log (deliver deps filter s o) (deliver recording filter (with_log s log) o)
  unfolding deliver deliver_if_match handler_ending
  deliver-Beside s log (ok event) = elim (Bool-cases (match_event filter event)) [
    | inl m ↦ rw (m, deliver_if_match) (hands_over event event.action)
    | inr m ↦ rw (m, deliver_if_match) (silent s refl)
  ]
  deliver-Beside s log (err e) = fails (failed e) (λ q. cc)
  deliver-Beside s log panic = fails crashed (λ q. cc)

  change-recording :
      (s : Stream H) (log : List (ChangeEvent V)) (wal_start id : ℕ) (action : Bytes)
      (new old : Option (List Column))
      → change recording filter (with_log s log) wal_start action id new old
        ≡ change deps filter s wal_start action id new old
  unfolding change row_event
  change-recording s log wal_start id action new old = refl

  process-Beside :
      (s : Stream H) (log : List (ChangeEvent V)) (wal_start : ℕ) (msg : Message)
      → Beside s log
          (process deps filter s wal_start msg)
          (process recording filter (with_log s log) wal_start msg)
  unfolding process
  process-Beside s log wal_start (begin xid time) = silent _ refl
  process-Beside s log wal_start commit = silent _ refl
  process-Beside s log wal_start (relation rel) = silent _ refl
  process-Beside s log wal_start (insert id tuple) =
      rw (change-recording s log wal_start id (codes "INSERT") tuple none) (deliver-Beside s log _)
  process-Beside s log wal_start (update id old new) =
      rw (change-recording s log wal_start id (codes "UPDATE") new old) (deliver-Beside s log _)
  process-Beside s log wal_start (delete id old) =
      rw (change-recording s log wal_start id (codes "DELETE") none old) (deliver-Beside s log _)
  process-Beside s log wal_start (truncate n) = silent s refl
  process-Beside s log wal_start other = silent s refl

  pub process_message-Beside :
      (s : Stream H) (log : List (ChangeEvent V)) (xlog : XlogData)
      → Beside s log
          (process_message deps filter s xlog)
          (process_message recording filter (with_log s log) xlog)
  unfolding process_message
  process_message-Beside s log xlog = elim (Option-cases (deps.parse xlog.wal_data)) [
    | inl e ↦ rw (e, process_message) (fails (failed bad_message) (λ q. cc))
    | inr (msg, e) ↦ rw (e, process_message) (process-Beside s log xlog.wal_start msg)
  ]
