-- ===== src/Cdc/Stream.antt =====
-- internal/cdc/stream.go: `processMessage` and `deliverIfMatch`. The handler keeps a state of its
-- own, of type `H`, and may return an error.
pub mod Transactions
pub mod Decoded
use waltap.Prelude.{
  ℕ, zero, suc, ◌+◌, Bool, true, false, Option, none, some, List, [], ◌∷◌, ◌==◌, if◌then◌else◌,
  Bytes, codes, length, Outcome, ok, err, panic, ◌>>=◌,
}
use waltap.Cdc.Event.{Row, ChangeEvent, zero_time}
use waltap.Cdc.Filter.{Filter, match_event}
use waltap.Cdc.Decode.{Column, RelationMessage, Codecs, decode_tuple}

-- A decoded pgoutput message (types of pglogrepl).
pub data Message : Type 0 where
  begin : (xid commit_time : ℕ) → Message
  commit : Message
  relation : RelationMessage → Message
  insert : (relation_id : ℕ) (tuple : Option (List Column)) → Message
  update : (relation_id : ℕ) (old_tuple new_tuple : Option (List Column)) → Message
  delete : (relation_id : ℕ) (old_tuple : Option (List Column)) → Message
  truncate : (relation_num : ℕ) → Message
  other : Message

pub record XlogData : Type 0 where
  pub wal_start : ℕ
  pub wal_data : Bytes

pub data StreamError (E : Type 0) : Type 0 where
  bad_message : StreamError E
  unknown_relation : ℕ → StreamError E
  handler_failed : (action : Bytes) → E → StreamError E

-- What the stream takes from outside: pgoutput's parser, the print of an LSN, the codecs of pgx,
-- and the caller's handler.
pub record Deps (V H E : Type 0) : Type 0 where
  pub parse : Bytes → Option Message
  pub lsn_string : ℕ → Bytes
  pub codecs : Codecs V
  pub handler : H → ChangeEvent V → H × Option E

-- The part of `Stream` that messages change; the handler's state is part of it.
pub record Stream (H : Type 0) : Type 0 where
  pub relations : List (ℕ × RelationMessage)
  pub current_xid : ℕ
  pub current_commit_time : ℕ
  pub handled : H

unfoldable pub find_relation : ℕ → List (ℕ × RelationMessage) → Option RelationMessage
find_relation id [] = none
find_relation id ((j, rel) ∷ rels) = if j == id then some rel else find_relation id rels

-- How a call ends: `done` is a nil error.
pub data Ending (E : Type 0) : Type 0 where
  done : Ending E
  failed : StreamError E → Ending E
  crashed : Ending E

-- The next call, behind one that returned nil.
abbrev pub after_done :
    {H E : Type 0} → (Stream H → Stream H × Ending E) → Stream H × Ending E → Stream H × Ending E
after_done next (s, done) = next s
after_done next (s, end) = (s, end)

module _ {V H E : Type 0} (deps : Deps V H E) (filter : Filter) where
  unfoldable pub handler_ending : Stream H → Bytes → H × Option E → Stream H × Ending E
  handler_ending s action (h, none) = (record s { handled = h }, done)
  handler_ending s action (h, some e) = (record s { handled = h }, failed (handler_failed action e))

  unfoldable pub deliver_if_match : Stream H → ChangeEvent V → Stream H × Ending E
  unfolding handler_ending
  deliver_if_match s event = elim (match_event filter event) [
    | false ↦ (s, done)
    | true ↦ handler_ending s event.action (deps.handler s.handled event)
  ]

  unfoldable pub row_event :
      Stream H → ℕ → Bytes → RelationMessage → Option (Row V) → Option (Row V) → ChangeEvent V
  row_event s wal_start action rel new old = record {
    action = action;
    schema = rel.namespace;
    table = rel.relation_name;
    new = new;
    old = old;
    timestamp = s.current_commit_time;
    lsn = deps.lsn_string wal_start;
    xid = s.current_xid;
  }

  -- An insert, an update or a delete: the relation is looked up, and the tuples are decoded.
  unfoldable pub change :
      Stream H
      → ℕ
      → Bytes
      → ℕ
      → Option (List Column)
      → Option (List Column)
      → Outcome (StreamError E) (ChangeEvent V)
  unfolding find_relation decode_tuple row_event
  change s wal_start action id new_tuple old_tuple = elim (find_relation id s.relations) [
    | none ↦ err (unknown_relation id)
    | some rel ↦ do
      new ← decode_tuple deps.codecs new_tuple rel
      old ← decode_tuple deps.codecs old_tuple rel
      ok (row_event s wal_start action rel new old)
  ]

  unfoldable pub deliver : Stream H → Outcome (StreamError E) (ChangeEvent V) → Stream H × Ending E
  unfolding deliver_if_match
  deliver s (ok event) = deliver_if_match s event
  deliver s (err e) = (s, failed e)
  deliver s panic = (s, crashed)

  -- The `switch` on the type of the message.
  unfoldable pub process : Stream H → ℕ → Message → Stream H × Ending E
  unfolding deliver change
  process s wal_start (begin xid commit_time) =
      (record s { current_xid = xid; current_commit_time = commit_time }, done)
  process s wal_start commit = (record s { current_xid = 0; current_commit_time = zero_time }, done)
  process s wal_start (relation rel) =
      (record s { relations = (rel.relation_id, rel) ∷ s.relations }, done)
  process s wal_start (insert id tuple) =
      deliver s (change s wal_start (codes "INSERT") id tuple none)
  process s wal_start (update id old_tuple new_tuple) =
      deliver s (change s wal_start (codes "UPDATE") id new_tuple old_tuple)
  process s wal_start (delete id old_tuple) =
      deliver s (change s wal_start (codes "DELETE") id none old_tuple)
  process s wal_start (truncate n) = (s, done)
  process s wal_start other = (s, done)

  unfoldable pub process_message : Stream H → XlogData → Stream H × Ending E
  unfolding process
  process_message s xlog = elim (deps.parse xlog.wal_data) [
    | none ↦ (s, failed bad_message)
    | some msg ↦ process s xlog.wal_start msg
  ]
