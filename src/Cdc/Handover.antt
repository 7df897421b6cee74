-- ===== src/Cdc/Handover.antt =====
-- internal/cdc: the snapshot and the stream one behind the other: `Stream.Run` as a whole, and what
-- the handler takes where streaming starts at the position that the snapshot returned.
use waltap.Prelude.{
  ℕ, ◌≡◌, sym, ap, ◌∙◌, Bool, some, inl, inr, List, [], ◌∷◌, ◌++◌, append-nil, ◌⊎◌, Bytes, ok,
}
use waltap.Cdc.Event.{ChangeEvent}
use waltap.Cdc.Event.Takes.{Takes}
use waltap.Cdc.Stream.{Deps, done}
use waltap.Cdc.Stream.Decoded.{with_log}
use waltap.Cdc.Loop.{
  Protocol, Round, Loop, Exit, running, shut_down, stopped, panicked, start_loop, run_loop, leave,
  message_loop,
}
use waltap.Cdc.Loop.Acks.{xlogs}
use waltap.Cdc.Loop.HandedOver.{decoded_events, run_loop-Takes}
use waltap.Cdc.Snapshot.{Database, run_snapshot}
use waltap.Cdc.Snapshot.Complete.{SnapshotTaken, run_snapshot-taken}
use waltap.Cdc.Connect.{Command, start_replication, Server, Tried, went_on, ◌>>=◌, start_stream}
use waltap.Cdc.Connect.Starts.{Last, start_stream-Last, links_of_chain, went_on_same}
use waltap.Cdc.Construct.{StreamConfig, set_start_lsn, table_list}

module _ {V H E F : Type 0} (server : Server F) (order : List Bytes → List Bytes)
    (deps : Deps V H E) (protocol : Protocol) where
  -- `Stream.Run`: an error in front of the loop, or how the loop is left.
  unfoldable pub run_stream : ℕ → Bool → List Round → StreamConfig H → Tried F (Loop H × Exit E)
  unfolding start_stream message_loop
  run_stream now final_sent rs s = do
    lsn ← start_stream server (table_list order) s.config
    went_on [] (message_loop deps s.config.filter protocol final_sent rs (start_loop now s.stream))

  leave-running :
      (sent : Bool) (x : Loop H × Exit E) (l' : Loop H)
      → leave sent x ≡ (l', running)
      → x ≡ (l', running)
  leave-running sent (l, running) l' e = e
  leave-running sent (l, shut_down) l' e = absurd (cc)
  leave-running sent (l, stopped f) l' e = absurd (cc)
  leave-running sent (l, panicked) l' e = absurd (cc)

  run_stream-running :
      (now : ℕ) (final_sent : Bool) (rs : List Round) (s : StreamConfig H) (log : List Command)
      (l' : Loop H)
      → run_stream now final_sent rs s ≡ went_on log (l', running)
      → (lsn : ℕ) × (start_stream server (table_list order) s.config ≡ went_on log lsn)
        × (run_loop deps s.config.filter protocol rs (start_loop now s.stream) ≡ (l', running))
  unfolding run_stream message_loop
  run_stream-running now final_sent rs s log l' e =
      let (first, lsn, rest, started, looped, logs) =
        links_of_chain (start_stream server (table_list order) s.config) _ log (l', running) e in
      let (no_more, left) = went_on_same [] rest _ (l', running) looped in
      (
        lsn,
        started
            ∙ ap (λ k. went_on k lsn)
                (sym (append-nil first) ∙ ap (λ k. first ++ k) no_more ∙ sym logs),
        leave-running final_sent _ l' left,
      )

  some_override :
      (p : ℕ) (ps : Bytes) (lsn slot : ℕ)
      → ((◌≡◌ {A = Bytes} (p ∷ ps) [] × (lsn ≡ slot)) ⊎ (server.parse_lsn (p ∷ ps) ≡ some lsn))
      → server.parse_lsn (p ∷ ps) ≡ some lsn
  some_override p ps lsn slot (inl (bad, e)) = absurd (cc)
  some_override p ps lsn slot (inr e) = e

  -- Where a snapshot of some tables returned a position, not empty, which was then set as the start
  -- of a stream with the same handler, and the stream runs: the position is what that of the log was
  -- when the transaction had begun, before the tables were read, replication was started there, last
  -- of all commands, and the handler has taken every row of every table, read in the states behind
  -- the position, and then, once, in order and without an error, every event of the messages that
  -- were received.
  pub snapshot_then_stream :
      (db : Database V H E) (table : Bytes) (tables : List Bytes) (p : ℕ) (ps : Bytes) (h h' : H)
      (now : ℕ) (final_sent : Bool) (rs : List Round) (s : StreamConfig H) (log : List Command)
      (l' : Loop H)
      → run_snapshot db deps.handler (table ∷ tables) h ≡ (h', ok (p ∷ ps))
      → s.stream.handled ≡ h'
      → run_stream now final_sent rs (set_start_lsn (p ∷ ps) s) ≡ went_on log (l', running)
      → (lsn : ℕ) × (events : List (ChangeEvent V)) × SnapshotTaken db deps.handler
          (table ∷ tables)
          (p ∷ ps)
          h
          h'
        × (server.parse_lsn (p ∷ ps) ≡ some lsn)
        × Last (start_replication lsn) log
        × (decoded_events deps s.config.filter protocol (xlogs protocol rs) s.stream []
            ≡ (with_log deps s.config.filter l'.stream events, done))
        × Takes deps.handler events h' l'.stream.handled
  unfolding set_start_lsn
  snapshot_then_stream db table tables p ps h h' now final_sent rs s log l' snapped same running_ =
      let (lsn, started, looping) =
        run_stream-running now final_sent rs (set_start_lsn (p ∷ ps) s) log l' running_ in
      let (last, published, (slot, at_slot, position)) =
        start_stream-Last server (table_list order) (set_start_lsn (p ∷ ps) s).config log lsn
          started in
      let snapshot = run_snapshot-taken db deps.handler table tables (p ∷ ps) h h' snapped in
      let (events, decoded, taken) =
        run_loop-Takes deps s.config.filter protocol rs (start_loop now s.stream) l' looping in
      (lsn, events, snapshot, some_override p ps lsn slot position, last, decoded, rw same at taken)
