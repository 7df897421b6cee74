-- ===== src/Cdc/Stream/Transactions.antt =====
-- What the handler sees of a transaction.
use waltap.Prelude.{
  ℕ, ◌≡◌, refl, ◌∙◌, true, inl, inr, Option, none, some, List, [], ◌∷◌, arith, Bytes, All,
  Bool-cases, Outcome-cases, ok,
}
use waltap.Cdc.Event.{ChangeEvent}
use waltap.Cdc.Filter.{Filter, match_event}
use waltap.Cdc.Decode.{Column}
use waltap.Cdc.Stream.{
  Message, begin, commit, relation, insert, update, delete, truncate, other, Deps, Stream,
  after_done, Ending, done, failed, crashed, handler_ending, deliver_if_match, row_event, change,
  deliver, process,
}

-- A message between Begin and Commit.
abbrev pub IsInside : Message → Type 0
IsInside (begin xid commit_time) = ⊥
IsInside commit = ⊥
IsInside _ = Unit {0}

module _ {V H E : Type 0} (deps : Deps V H E) (filter : Filter) where
  -- Messages with their positions, one after the other, up to one that fails.
  unfoldable pub process_messages : List (ℕ × Message) → Stream H → Stream H × Ending E
  unfolding process
  process_messages [] s = (s, done)
  process_messages ((wal_start, msg) ∷ msgs) s =
      after_done (process_messages msgs) (process deps filter s wal_start msg)

  module _ (P : H → Type 0) (x t : ℕ) where
    -- The handler keeps `P` on the events of one transaction that the filter lets pass.
    abbrev pub Keeps : Type 0
    Keeps =
        (h : H) (event : ChangeEvent V)
        → P h
        → match_event filter event ≡ true
        → event.xid ≡ x
        → event.timestamp ≡ t
        → P (deps.handler h event).0

    abbrev pub Within : Stream H → Type 0
    Within s = (s.current_xid ≡ x) × (s.current_commit_time ≡ t) × P s.handled

    handler_ending-Within :
        (s : Stream H) (action : Bytes) (r : H × Option E)
        → Within s
        → P r.0
        → Within (handler_ending deps filter s action r).0
    unfolding handler_ending
    handler_ending-Within s action (h, none) w p = (w.0, w.1, p)
    handler_ending-Within s action (h, some e) w p = (w.0, w.1, p)

    deliver_if_match-Within :
        (s : Stream H) (event : ChangeEvent V)
        → Keeps
        → Within s
        → event.xid ≡ x
        → event.timestamp ≡ t
        → Within (deliver_if_match deps filter s event).0
    unfolding deliver_if_match
    deliver_if_match-Within s event keep w ex et = elim (Bool-cases (match_event filter event)) [
      | inr e ↦ rw (e, deliver_if_match) w
      | inl e ↦
          rw (e, deliver_if_match)
            (handler_ending-Within s event.action _ w (keep s.handled event w.2 e ex et))
    ]

    change-stamp :
        (s : Stream H) (wal_start : ℕ) (action : Bytes) (id : ℕ) (new old : Option (List Column))
        (event : ChangeEvent V)
        → change deps filter s wal_start action id new old ≡ ok event
        → (event.xid ≡ s.current_xid) × (event.timestamp ≡ s.current_commit_time)
    unfolding change row_event
    change-stamp s wal_start action id new old event e = ground arith

    deliver-Within :
        (s : Stream H) (wal_start : ℕ) (action : Bytes) (id : ℕ) (new old : Option (List Column))
        → Keeps
        → Within s
        → Within (deliver deps filter s (change deps filter s wal_start action id new old)).0
    unfolding deliver
    deliver-Within s wal_start action id new old keep w =
        elim (Outcome-cases (change deps filter s wal_start action id new old)) [
          | inl (event, e) ↦
              let (same_xid, same_time) = change-stamp s wal_start action id new old event e in
              rw e (deliver_if_match-Within s event keep w (same_xid ∙ w.0) (same_time ∙ w.1))
          | inr (inl (f, e)) ↦ rw e w
          | inr (inr e) ↦ rw e w
        ]

    process-Within :
        (s : Stream H) (wal_start : ℕ) (msg : Message)
        → Keeps
        → IsInside msg
        → Within s
        → Within (process deps filter s wal_start msg).0
    unfolding process
    process-Within s wal_start (begin xid commit_time) keep i w = absurd i
    process-Within s wal_start commit keep i w = absurd i
    process-Within s wal_start (relation rel) keep i w = w
    process-Within s wal_start (insert id tuple) keep i w =
        deliver-Within s wal_start _ id tuple none keep w
    process-Within s wal_start (update id old new) keep i w =
        deliver-Within s wal_start _ id new old keep w
    process-Within s wal_start (delete id old) keep i w =
        deliver-Within s wal_start _ id none old keep w
    process-Within s wal_start (truncate n) keep i w = w
    process-Within s wal_start other keep i w = w

    after_done-Within :
        (next : Stream H → Stream H × Ending E) (r : Stream H × Ending E)
        → Within r.0
        → ((s : Stream H) → Within s → Within (next s).0)
        → Within (after_done next r).0
    after_done-Within next (s, done) w h = h s w
    after_done-Within next (s, failed e) w h = w
    after_done-Within next (s, crashed) w h = w

    process_messages-Within :
        (msgs : List (ℕ × Message)) (s : Stream H)
        → Keeps
        → All (λ m. IsInside m.1) msgs
        → Within s
        → Within (process_messages msgs s).0
    unfolding process_messages
    process_messages-Within [] s keep h w = w
    process_messages-Within ((wal_start, msg) ∷ msgs) s keep h w =
        after_done-Within (process_messages msgs) _ (process-Within s wal_start msg keep h.0 w)
          (λ s' w'. process_messages-Within msgs s' keep h.1 w')

  -- Between a Begin and its Commit the handler is called only with events that pass the filter and
  -- carry the transaction's id and commit time: what it keeps on these it keeps, whether or not a
  -- message fails, and no such message changes the id or the time.
  pub transaction-Within :
      (P : H → Type 0) (x t wal_start : ℕ) (msgs : List (ℕ × Message)) (s : Stream H)
      → Keeps P x t
      → All (λ m. IsInside m.1) msgs
      → P s.handled
      → Within P x t (process_messages ((wal_start, begin x t) ∷ msgs) s).0
  unfolding process_messages process
  transaction-Within P x t wal_start msgs s keep h p =
      process_messages-Within P x t msgs _ keep h (refl, refl, p)
