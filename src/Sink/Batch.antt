-- ===== src/Sink/Batch.antt =====
-- internal/sink/batch.go: the buffer, its timers, and the deliveries under way. A section of the
-- code that holds the mutex is one step; a timer that fires waits for the mutex, and a batch that
-- is taken is delivered outside it. `C` is Go's context.
pub mod Steps
pub mod Taken
pub mod Settled
pub mod Held
pub mod Pending
pub mod Loss
use waltap.Prelude.{
  ℕ, zero, suc, ◌+◌, ◌-◌, Bool, true, false, not, Option, none, some, List, [], ◌∷◌, ◌++◌, length,
  ◌==◌, leb, if◌then◌else◌,
}

pub data Trigger : Type 0 where
  by_size by_time by_close : Trigger

-- A call of `DeliverBatch` under way; `Close` calls it with a context of its own, `none`.
pub record Flight (C A : Type 0) : Type 0 where
  pub trigger : Trigger
  pub ctx : Option C
  pub batch : List A

-- The fields of `BatchSink`; the timers created, those running, and the callbacks that wait for
-- the mutex; and where the batches are: under way, delivered, returned as an error by `Deliver`,
-- or logged and gone.
pub record Batch (C A : Type 0) : Type 0 where
  pub buffer : List A
  pub timer : Option ℕ
  pub flushed : Bool
  pub flush_ctx : Option C
  pub created : ℕ
  pub armed : List ℕ
  pub waiting : ℕ
  pub in_flight : List (Flight C A)
  pub delivered : List (List A)
  pub reported : List (List A)
  pub logged : List (List A)

unfoldable pub remove : ℕ → List ℕ → List ℕ
remove i [] = []
remove i (j ∷ js) = if j == i then remove i js else j ∷ remove i js

-- The callback signals on `flushed` behind its delivery.
abbrev pub signals : Trigger → Bool → Bool
signals by_time flushed = true
signals _ flushed = flushed

-- The context of the first call.
abbrev pub keep_ctx : {C : Type 0} → C → Option C → Option C
keep_ctx ctx none = some ctx
keep_ctx ctx (some first) = some first

-- A timer that has fired is not stopped.
unfoldable pub stop_armed : Option ℕ → List ℕ → List ℕ
unfolding remove
stop_armed none armed = armed
stop_armed (some i) armed = remove i armed

module _ {C A : Type 0} where
  abbrev pub new_batch : Batch C A
  new_batch = record {
    buffer = [];
    timer = none;
    flushed = false;
    flush_ctx = none;
    created = 0;
    armed = [];
    waiting = 0;
    in_flight = [];
    delivered = [];
    reported = [];
    logged = [];
  }

  -- `time.AfterFunc`
  unfoldable pub start_timer : Batch C A → Batch C A
  start_timer b =
      if length b.buffer == 1
      then record b { timer = some b.created; created = b.created + 1; armed = b.created ∷ b.armed }
      else b

  unfoldable pub stop_timer : Batch C A → Batch C A
  unfolding stop_armed
  stop_timer b = record b { timer = none; armed = stop_armed b.timer b.armed }

  -- The batch that is taken goes under way.
  abbrev pub launch : Trigger → Option C → Batch C A → Batch C A
  launch trigger ctx b = record b {
    buffer = [];
    in_flight = b.in_flight ++ (record { trigger = trigger; ctx = ctx; batch = b.buffer }) ∷ [];
  }

  unfoldable pub append_event : C → A → Batch C A → Batch C A
  unfolding start_timer
  append_event ctx event b =
      start_timer
        (record b { flush_ctx = keep_ctx ctx b.flush_ctx; buffer = b.buffer ++ event ∷ [] })

  -- `Deliver`, up to where it unlocks: it returns nil unless a batch goes under way.
  unfoldable pub deliver : ℕ → C → A → Batch C A → Batch C A
  unfolding append_event stop_timer
  deliver max_size ctx event b =
      let b' = append_event ctx event b in
      if leb max_size (length b'.buffer) then stop_timer (launch by_size (some ctx) b') else b'

  -- A timer fires: its callback waits for the mutex.
  abbrev pub fire : ℕ → Batch C A → Batch C A
  fire i b = record b { armed = remove i b.armed; waiting = b.waiting + 1 }

  -- The callback, up to its delivery; with nothing to deliver it only signals.
  unfoldable pub flush_timed : Batch C A → Batch C A
  flush_timed b = elim b.buffer [
    | [] ↦ record b { waiting = b.waiting - 1; flushed = true }
    | _ ∷ _ ↦ launch by_time b.flush_ctx (record b { waiting = b.waiting - 1 })
  ]

  -- `Close`, up to its delivery.
  unfoldable pub close : Batch C A → Batch C A
  unfolding stop_timer
  close b = elim b.buffer [ [] ↦ stop_timer b | _ ∷ _ ↦ launch by_close none (stop_timer b) ]

  -- A delivery that fails: only `Deliver` returns its error.
  unfoldable pub fail_batch : Trigger → List A → Batch C A → Batch C A
  fail_batch by_size batch b = record b { reported = b.reported ++ batch ∷ [] }
  fail_batch by_time batch b = record b { logged = b.logged ++ batch ∷ []; flushed = true }
  fail_batch by_close batch b = record b { logged = b.logged ++ batch ∷ [] }

  -- A delivery ends.
  unfoldable pub land : Flight C A → Bool → Batch C A → Batch C A
  unfolding fail_batch
  land f true b = fail_batch f.trigger f.batch b
  land f false b = record b {
    delivered = b.delivered ++ f.batch ∷ [];
    flushed = signals f.trigger b.flushed;
  }
