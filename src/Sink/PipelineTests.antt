-- ===== src/Sink/PipelineTests.antt =====
-- internal/cdc and internal/sink together: the theorems at concrete inputs, and a run of the code.
use waltap.Prelude.{
  ℕ, ◌+◌, ◌<◌, ◌≡◌, ◌≢◌, ◌⊎◌, refl, ap, true, false, Option, none, some, List, [], ◌∷◌, ◌++◌, map,
  arith, Bytes, codes, bytes_eq, ltb, if◌then◌else◌, All,
}
use waltap.Cdc.Event.{ChangeEvent, insert}
use waltap.Cdc.Filter.{Filter, match_event, passes}
use waltap.Cdc.Decode.{RelationMessage, decode_tuple, decode_columns, set_column, text_value}
use waltap.Cdc.Stream.{
  Message, begin, commit, relation, Deps, Stream, done, process, process_message, change,
  deliver_if_match, find_relation,
}
use waltap.Cdc.Stream
use waltap.Cdc.Stream.Decoded.{with_log}
use waltap.Cdc.Loop.{
  Protocol, copy_data, Round, Loop, Exit, running, run_loop, loop_round, receive, receive_copy_data,
  receive_xlog, periodic_ack, xlog_end,
}
use waltap.Cdc.Loop.Acks.{xlogs}
use waltap.Cdc.Loop.HandedOver.{decoded_events}
use waltap.Sink.Retry.{Answer, delivered, Chances, Retried, after_attempt, retry_loop}
use waltap.Sink.Retry
use waltap.Sink.Dlq.{DlqEntry, Dlq}
use waltap.Sink.Metrics.{Metered, metered_deliver}
use waltap.Sink.Webhook.{
  Marshalled, marshalled, Http, Response, responded, PostError, post, webhook_deliver,
}
use waltap.Sink.Webhook.Posted.{Posted}
use waltap.Sink.Pipeline.{wired, IsSettled, run_loop-Somewhere, run_loop-Acknowledged}

abbrev chances : Chances
chances = record {
  cancelled = λ n. false;
  waited = λ n d. true;
  out_of_range = λ n. 0;
  jitter = λ n d. d;
}

-- A receiver that counts its requests and answers 204.
abbrev http : Http ℕ ℕ
http = record { new_request = λ url. none; send = λ w r. (w + 1, responded 204) }

abbrev pub encode : ChangeEvent ℕ → Marshalled ℕ
encode event = marshalled (codes "{}")

abbrev letters : Dlq (List ℕ) (ChangeEvent ℕ) (PostError ℕ)
letters = record { encode = λ f entry. (1 ∷ f, none); error_text = λ e. codes "no"; now = λ f. 0 }

abbrev World : Type 0
World = Metered (Retried (ℕ × List ℕ))

abbrev unused : World
unused = record {
  world = record { world = (0, []); attempts = 0; successes = 0; exhausted = 0 };
  lag = none;
  events_total = [];
}

abbrev users : RelationMessage
users = record {
  relation_id = 7;
  namespace = codes "public";
  relation_name = codes "t";
  columns = [];
}

-- A message is its first byte.
abbrev pub parse : Bytes → Option Message
parse [] = none
parse (c ∷ s) = if ltb c 1 then some (relation users) else some (Message.insert 7 (some []))

abbrev deps : Deps ℕ World (Answer (PostError ℕ))
deps = record {
  parse = parse;
  lsn_string = λ n. n ∷ [];
  codecs = λ oid. none;
  handler = λ h event. (h, none);
}

abbrev pub no_filter : Filter
no_filter = record { tables = []; actions = [] }

abbrev pub protocol : Protocol
protocol = record {
  keepalive_id = b'k';
  xlog_data_id = b'w';
  parse_keepalive = λ s. some true;
  parse_xlog_data = λ s. some (record { wal_start = 100; wal_data = s });
}

abbrev wal : ℕ → Round
wal c = record {
  cancelled = false;
  now = 1;
  now_acked = 2;
  ack_sent = true;
  reply_sent = true;
  received = copy_data (b'w' ∷ c ∷ []);
}

abbrev new_loop : Loop World
new_loop = record {
  stream = record { relations = []; current_xid = 0; current_commit_time = 0; handled = unused };
  last_received = 0;
  last_acked = 0;
  next_ack_time = 10;
  acks = [];
}

abbrev pub rounds : List Round
rounds = wal 0 ∷ wal 1 ∷ wal 1 ∷ []

abbrev wired_deps : Deps ℕ World (Answer (PostError ℕ))
wired_deps = wired http (codes "u") encode letters 5 100 1000 (λ m. chances) (λ t. t) deps

abbrev end_loop : Loop World × Exit (Answer (PostError ℕ))
end_loop = run_loop wired_deps no_filter protocol rounds new_loop

rounds_running : end_loop ≡ (end_loop.0, running)
unfolding run_loop loop_round periodic_ack receive receive_copy_data receive_xlog process_message
    process change Stream.deliver deliver_if_match match_event passes find_relation decode_tuple
    decode_columns set_column text_value insert bytes_eq xlog_end metered_deliver Retry.deliver
    retry_loop after_attempt webhook_deliver post
rounds_running = refl

posts_one :
    (event : ChangeEvent ℕ) (w w' : ℕ)
    → Posted http
        (codes "u")
        (encode event)
        ((codes "X-PGCDC-Action", event.action)
          ∷ (codes "X-PGCDC-Table", event.schema ++ b'.' ∷ event.table)
          ∷ [])
        w
        w'
    → 0 < w'
posts_one event w w' p =
    let same : w + 1 ≡ w' = ap (λ (x : ℕ × Response ℕ). x.0) p.sends in omega (arith, same)

letters_some :
    (f f' : List ℕ) (entry : DlqEntry (ChangeEvent ℕ))
    → letters.encode f entry ≡ (f', none)
    → f' ≢ []
letters_some f f' entry e q =
    let same : 1 ∷ f ≡ f' = ap (λ (x : List ℕ × Option (PostError ℕ)). x.0) e in cc

run_loop-Somewhere_example :
    (events : List (ChangeEvent ℕ)) × (decoded_events wired_deps no_filter protocol
        (xlogs protocol rounds)
        new_loop.stream
        []
      ≡ (with_log wired_deps no_filter end_loop.0.stream events, done))
    × All
        (λ event.
          (0 < end_loop.0.stream.handled.world.world.0)
          ⊎ (end_loop.0.stream.handled.world.world.1 ≢ []))
        events
    × (end_loop.0.stream.handled.events_total
        ≡ []
          ++ map (λ (event : ChangeEvent ℕ). (event.action, event.table, codes "delivered")) events)
run_loop-Somewhere_example =
    run_loop-Somewhere http (codes "u") encode letters 5 100 1000 (λ m. chances) (λ t. t)
      (λ event w. 0 < w) (λ event f. f ≢ []) posts_one
      (λ event f f' entry same e. letters_some f f' entry e) (λ event w r h. omega (arith, h))
      (λ event f entry h. letters_some f (1 ∷ f) entry refl) deps no_filter protocol rounds new_loop
      end_loop.0 rounds_running

-- A round of time 20, in which the position is reported.
abbrev late : Round
late = record (wal 1) { now = 20 }

abbrev acked_rounds : List Round
acked_rounds = wal 0 ∷ wal 1 ∷ late ∷ []

abbrev acked_end : Loop World × Exit (Answer (PostError ℕ))
acked_end = run_loop wired_deps no_filter protocol acked_rounds new_loop

acked_run : acked_end ≡ (acked_end.0, acked_end.1)
acked_run = refl

test_acked : acked_end.0.acks ≡ 102 ∷ []
unfolding run_loop loop_round periodic_ack receive receive_copy_data receive_xlog process_message
    process change Stream.deliver deliver_if_match match_event passes find_relation decode_tuple
    decode_columns set_column text_value insert bytes_eq xlog_end metered_deliver Retry.deliver
    retry_loop after_attempt webhook_deliver post
test_acked = refl

run_loop-Acknowledged_example :
    (added : List ℕ) × (acked_end.0.acks ≡ [] ++ added)
    × All
        (IsSettled http
          (codes "u")
          encode
          letters
          5
          100
          1000
          (λ m. chances)
          (λ t. t)
          (λ event w. 0 < w)
          (λ event f. f ≢ [])
          posts_one
          (λ event f f' entry same e. letters_some f f' entry e)
          (λ event w r h. omega (arith, h))
          (λ event f entry h. letters_some f (1 ∷ f) entry refl)
          deps
          no_filter
          protocol
          acked_rounds
          new_loop)
        added
run_loop-Acknowledged_example =
    run_loop-Acknowledged http (codes "u") encode letters 5 100 1000 (λ m. chances) (λ t. t)
      (λ event w. 0 < w) (λ event f. f ≢ []) posts_one
      (λ event f f' entry same e. letters_some f f' entry e) (λ event w r h. omega (arith, h))
      (λ event f entry h. letters_some f (1 ∷ f) entry refl) deps no_filter protocol acked_rounds
      new_loop acked_end.0 acked_end.1 acked_run
