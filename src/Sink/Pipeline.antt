-- ===== src/Sink/Pipeline.antt =====
-- internal/cdc and internal/sink together: the stream with the chain of sinks as its handler, as
-- sink.go and metrics.go show it: what is decoded from the log is delivered or parked.
use waltap.Prelude.{
  ℕ, ◌≡◌, ap, sym, ◌∙◌, ◌⊎◌, inl, inr, Option, none, some, List, [], ◌∷◌, ◌++◌, map, append-nil,
  append_assoc, Bytes, codes, All, All-map,
}
use waltap.Cdc.Event.{ChangeEvent}
use waltap.Cdc.Event.Takes.{Takes, takes_none, takes, Takes-All}
use waltap.Cdc.Filter.{Filter}
use waltap.Cdc.Stream.{Deps, done}
use waltap.Cdc.Stream.Decoded.{with_log}
use waltap.Cdc.Loop.{Protocol, Round, Loop, Exit, running, run_loop}
use waltap.Cdc.Loop.Acks.{xlogs}
use waltap.Cdc.Loop.HandedOver.{decoded_events, process_all-Takes, run_loop-Takes}
use waltap.Cdc.Loop.Positions.{Reported, run_loop-Reported}
use waltap.Sink.Retry.{
  Answer, delivered, cancelled_retry, cancelled_wait, refused, crashed, Chances, Retried,
}
use waltap.Sink.Retry.Parked.{Parks}
use waltap.Sink.Dlq.{DlqEntry, Dlq}
use waltap.Sink.Metrics.{Metered}
use waltap.Sink.Webhook.{Marshalled, PostError, Http, Request, webhook_deliver}
use waltap.Sink.Webhook.Posted.{Posted}
use waltap.Sink.Chain.Kept.{chain-kept}
use waltap.Sink.Chain.{chain, chain-delivered, metered_deliver-delivered}

-- The error that the stream's handler returns; a panic, which ends the process, is kept as one.
abbrev pub error_of : {M E : Type 0} → M × Answer E → M × Option (Answer E)
error_of (m, delivered) = (m, none)
error_of (m, answer) = (m, some answer)

error_of-none :
    {M E : Type 0} (x : M × Answer E) (m : M) → error_of x ≡ (m, none) → x ≡ (m, delivered)
error_of-none {M} {E} (m, delivered) m' e = ap (λ (z : M × Option (Answer E)). (z.0, delivered)) e
error_of-none (m, cancelled_retry f) m' e = absurd (cc)
error_of-none (m, cancelled_wait) m' e = absurd (cc)
error_of-none (m, refused f) m' e = absurd (cc)
error_of-none (m, crashed) m' e = absurd (cc)

module _ {V W F E : Type 0} (http : Http W E) (url : Bytes) (marshal : ChangeEvent V → Marshalled E)
    (dlq : Dlq F (ChangeEvent V) (PostError E)) (max_attempts base_delay max_delay : ℕ)
    (chances : Metered (Retried (W × F)) → Chances) (since : ℕ → ℕ) where
  -- What the deliveries meet may change with what has been delivered before.
  abbrev pub sink_handler :
      Metered (Retried (W × F))
      → ChangeEvent V
      → Metered (Retried (W × F)) × Option (Answer (PostError E))
  sink_handler m event =
      error_of
        (chain http url marshal dlq max_attempts base_delay max_delay (chances m) since m event)

  abbrev pub delivered_label : ChangeEvent V → Bytes × Bytes × Bytes
  delivered_label event = (event.action, event.table, codes "delivered")

  Takes-events_total :
      (events : List (ChangeEvent V)) {m m' : Metered (Retried (W × F))}
      → Takes sink_handler events m m'
      → m'.events_total ≡ m.events_total ++ map delivered_label events
  Takes-events_total _ {m} takes_none = sym (append-nil m.events_total)
  Takes-events_total _ {m} (takes {event} {events} {h} {h'} answer more) =
      let one = (metered_deliver-delivered _ since m h' event (error_of-none _ h' answer)).1 in
      Takes-events_total events more
      ∙ ap (λ l. l ++ map delivered_label events) one
      ∙ append_assoc m.events_total (delivered_label event ∷ []) (map delivered_label events)

  -- The stream's parameters, with the chain as its handler.
  abbrev pub wired :
      Deps V (Metered (Retried (W × F))) (Answer (PostError E))
      → Deps V (Metered (Retried (W × F))) (Answer (PostError E))
  wired deps = record deps { handler = sink_handler }

  -- What a POST that is answered by a status from 200 to 299, and an entry of the dead-letter file,
  -- establish of their event, and what later requests and entries keep.
  module _ (Delivered : ChangeEvent V → W → Type 0) (Parked : ChangeEvent V → F → Type 0)
      (posts : (event : ChangeEvent V) (w w' : W)
        → Posted http url
            (marshal event)
            ((codes "X-PGCDC-Action", event.action)
              ∷ (codes "X-PGCDC-Table", event.schema ++ b'.' ∷ event.table)
              ∷ [])
            w
            w'
        → Delivered event w')
      (parks : (event : ChangeEvent V)
        → Parks (webhook_deliver http url marshal) dlq (Delivered event) (Parked event) event)
      (stays_delivered : (event : ChangeEvent V) (w : W) (r : Request)
        → Delivered event w
        → Delivered event (http.send w r).0)
      (stays_parked : (event : ChangeEvent V) (f : F) (entry : DlqEntry (ChangeEvent V))
        → Parked event f
        → Parked event (dlq.encode f entry).0) where
    abbrev pub IsSomewhere : ChangeEvent V → Metered (Retried (W × F)) → Type 0
    IsSomewhere event m = Delivered event m.world.world.0 ⊎ Parked event m.world.world.1

    sink_handler-Somewhere :
        (event : ChangeEvent V) (m m' : Metered (Retried (W × F)))
        → sink_handler m event ≡ (m', none)
        → IsSomewhere event m'
    sink_handler-Somewhere event m m' e =
        (chain-delivered http url marshal dlq max_attempts base_delay max_delay (chances m) since
          (Delivered event) (Parked event) event m m' (posts event) (parks event)
          (error_of-none _ m' e)).1

    stays :
        (event later : ChangeEvent V) (m m' : Metered (Retried (W × F)))
        → sink_handler m later ≡ (m', none)
        → IsSomewhere event m
        → IsSomewhere event m'
    stays event later m m' e h =
        let kept =
          chain-kept http url marshal dlq max_attempts base_delay max_delay (chances m) since
            (λ x. Delivered event x.0 ⊎ Parked event x.1)
            (λ w f r x. elim x [ inl d ↦ inl (stays_delivered event w r d) | inr p ↦ inr p ])
            (λ w f entry x. elim x [ inl d ↦ inl d | inr p ↦ inr (stays_parked event f entry p) ]) m
            later h in
        let there : (chain http url marshal dlq max_attempts base_delay max_delay (chances m) since
              m later).0
            ≡ m' =
          ap (λ (x : Metered (Retried (W × F)) × Answer (PostError E)). x.0)
            (error_of-none _ m' e) in
        rw there at kept

    -- A position that is reported behind messages whose events are all somewhere.
    abbrev pub IsSettled :
        Deps V (Metered (Retried (W × F))) (Answer (PostError E))
        → Filter
        → Protocol
        → List Round
        → Loop (Metered (Retried (W × F)))
        → ℕ
        → Type 0
    IsSettled deps filter protocol rs l ack =
        (t : Reported (wired deps) filter protocol rs l ack) × (events : List (ChangeEvent V))
        × (decoded_events (wired deps) filter protocol t.before l.stream []
            ≡ (with_log (wired deps) filter t.stream events, done))
        × All (λ event. IsSomewhere event t.stream.handled) events

    Reported-IsSettled :
        (deps : Deps V (Metered (Retried (W × F))) (Answer (PostError E))) (filter : Filter)
        (protocol : Protocol) (rs : List Round) (l : Loop (Metered (Retried (W × F)))) (ack : ℕ)
        → Reported (wired deps) filter protocol rs l ack
        → IsSettled deps filter protocol rs l ack
    Reported-IsSettled deps filter protocol rs l ack t =
        let (events, decoded, taken) =
          (process_all-Takes (wired deps) filter protocol t.before l.stream t.stream).0
            t.processed in
        (
          t,
          events,
          decoded,
          Takes-All sink_handler IsSomewhere sink_handler-Somewhere stays events taken,
        )

    -- While the stream runs with the chain of sinks as its handler, every event that the log holds
    -- for it was posted and answered by a status from 200 to 299, or encoded onto the dead-letter
    -- file, and is so now: what either of these establishes of the event, and later requests and
    -- entries keep, holds. Each event is counted once, in order, as delivered.
    pub run_loop-Somewhere :
        (deps : Deps V (Metered (Retried (W × F))) (Answer (PostError E))) (filter : Filter)
        (protocol : Protocol) (rs : List Round) (l l' : Loop (Metered (Retried (W × F))))
        → run_loop (wired deps) filter protocol rs l ≡ (l', running)
        → (events : List (ChangeEvent V)) × (decoded_events
              (wired deps)
              filter
              protocol
              (xlogs protocol rs)
              l.stream
              []
            ≡ (with_log (wired deps) filter l'.stream events, done))
          × All (λ event. IsSomewhere event l'.stream.handled) events
          × (l'.stream.handled.events_total
              ≡ l.stream.handled.events_total ++ map delivered_label events)
    run_loop-Somewhere deps filter protocol rs l l' e =
        let (events, decoded, taken) = run_loop-Takes (wired deps) filter protocol rs l l' e in
        (
          events,
          decoded,
          Takes-All sink_handler IsSomewhere sink_handler-Somewhere stays events taken,
          Takes-events_total events taken,
        )

    -- However the stream with the chain of sinks as its handler ends, every position that it has
    -- reported before it is left is the end of a message, or the one from before the schedule; and
    -- with all messages up to it processed, every event that they hold for the stream was posted and
    -- answered by a status from 200 to 299, or encoded onto the dead-letter file.
    pub run_loop-Acknowledged :
        (deps : Deps V (Metered (Retried (W × F))) (Answer (PostError E))) (filter : Filter)
        (protocol : Protocol) (rs : List Round) (l l' : Loop (Metered (Retried (W × F))))
        (exit : Exit (Answer (PostError E)))
        → run_loop (wired deps) filter protocol rs l ≡ (l', exit)
        → (added : List ℕ) × (l'.acks ≡ l.acks ++ added)
          × All (IsSettled deps filter protocol rs l) added
    run_loop-Acknowledged deps filter protocol rs l l' exit e =
        let (added, acks, reported) =
          run_loop-Reported (wired deps) filter protocol rs l l' exit e in
        (added, acks, All-map (Reported-IsSettled deps filter protocol rs l) added reported)
