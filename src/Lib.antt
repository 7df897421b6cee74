-- ===== src/Lib.antt =====
-- waltap: a PostgreSQL proxy that routes statements, and a change-data-capture library that reads
-- logical replication and delivers the changes to sinks. This library models both, and proves what
-- is listed at the end.
--
-- The parts and how they interact. A client talks to the proxy (internal/proxy): its statements
-- are classified (classifier.go) and sent to the primary or the replica, and the answers are
-- written back in PostgreSQL's wire protocol (proxy.go). A snapshot (internal/cdc/snapshot.go) hands
-- the rows that are there over as events. The stream (internal/cdc/stream.go) sets up a publication
-- and a slot, receives the write-ahead log, decodes it into change events (event.go), passes those
-- that the filter lets pass (filter.go) to a handler, and acknowledges positions. The handler is
-- the `Deliver` of a sink (internal/sink): a webhook or Kafka, with others around it: retries
-- (retry.go) with a dead-letter file (dlq.go), batches (batch.go), and metrics (metrics.go).
--
-- Where each part is modelled:
--   Prelude     Go's texts as lists of bytes with the functions of `strings` that the program
--               calls, the `Outcome` of code that fails or panics, tests on numbers, lists
--   Proxy/Classifier  ClassifyQuery and stripLeadingComments of internal/proxy/classifier.go
--   Proxy/Wire        the message writers, readRawMessage and extractSQL of internal/proxy/proxy.go
--   Proxy/Startup     parseStartupParams
--   Proxy/Session     a statement in handleClient, and executeAndRelay
--   Proxy/Connection  handleClient from the first byte to the end of the session
--   Proxy/Server      NewProxy, ListenAndRun, Run and Close: the set-up, and the loop with the
--                     sessions beside it as steps
--   Cdc/Event, Cdc/Filter  internal/cdc/event.go and filter.go
--   Cdc/Decode        decodeTuple with decodeTextColumn and decodeBinaryColumn of
--                     internal/cdc/stream.go
--   Cdc/Stream        processMessage and deliverIfMatch
--   Cdc/Loop          messageLoop and sendAck
--   Cdc/Construct     NewStream, SetStartLSN, NewSnapshot and TableList
--   Cdc/Handover      Run as a whole, behind a snapshot
--   Cdc/Connect       Run up to the loop, ensurePublication, ensureSlot and getSlotLSN
--   Cdc/Snapshot      Run, snapshotTable and quoteIdent of internal/cdc/snapshot.go
--   Sink/Retry        RetrySink.Deliver of internal/sink/retry.go
--   Sink/Options      NewRetrySink and its options
--   Sink/Lifecycle    the other constructors, and Close of every sink
--   Sink/Dlq          the handler of internal/sink/dlq.go
--   Sink/Batch        BatchSink of internal/sink/batch.go
--   Sink/Metrics      MetricsSink.Deliver of internal/sink/metrics.go
--   Sink/Webhook      Deliver and DeliverBatch of internal/sink/webhook.go and webhook_batch.go
--   Sink/Kafka        Deliver and buildKey of internal/sink/kafka.go
--   Sink/Chain        metrics around retries around a webhook, with the dead-letter file
--   Sink/Stdout       internal/sink/stdout.go and stdout_batch.go
--   Sink/Pipeline     the stream with that chain as its handler; Sink/Kafka/Produced, with the
--                     Kafka sink
--   Sink/TestServers  the handlers of cmd/flaky-server and cmd/webhook-test-server
--   Metrics           the collectors of internal/metrics/metrics.go
--   the modules whose names end in Tests  the theorems at concrete inputs, and runs
-- The modules below these hold proofs, named for what they prove.
--
-- What is outside is a parameter: the pools, the writes and the context of a client (`Env` of
-- Proxy/Session); the parser of pglogrepl, the codecs of pgx and the handler (`Deps` of
-- Cdc/Stream); the bytes of the replication protocol (`Protocol` of Cdc/Loop) and what each round
-- of the loop meets (`Round`); the server's answers (`Server` of Cdc/Connect, `Database` of
-- Cdc/Snapshot) and the order in which Go's map gives the tables; the inner sink, the failure
-- handler, the context and the random factor of the retries (`RetrySink` and `Chances` of
-- Sink/Retry); the file and its encoder (`Dlq` of Sink/Dlq); the HTTP client (`Http` of
-- Sink/Webhook) and the producer (`Kafka` of Sink/Kafka); the listeners and pools of the proxy
-- (`Network` of Proxy/Server). A write that fails may have written a part of its message. The
-- database of a snapshot and the handler share a state, so that what is asked of the one and handed
-- to the other has an order. In Sink/Batch a section that holds the mutex is one step, and the order
-- in which calls, timers and deliveries come is any; in Proxy/Server a statement of a session, a
-- connection and an error of Accept are steps, in any order, and what a session does is that of
-- Proxy/Connection.
--
-- Bounds and fuel. Numbers are natural numbers; lengths on the wire are written modulo 2^32 and
-- 2^16, and positions of the log modulo 2^64. The loop over comments runs on fuel, one more than
-- the length of the text, as each round shortens the text; so does the loop over startup
-- parameters, and the loop over a client's messages has the length of its input, as every message
-- takes at least a byte of it: that this is enough is proved. The other loops are structural. A
-- delay is exact below 2^63 nanoseconds: a base below 2^53 and its products with powers of 2 are
-- float64 numbers.
--
-- Not modelled: what net, pgxpool, net/http and the encoders do; the type map of pgx; the
-- histogram of delivery times and the metrics of batches and snapshots where they are recorded; what
-- the test servers print; log lines. Text beyond ASCII: Go's `strings` treats Unicode spaces and
-- letters, the model does not.
pub mod Prelude
pub mod Proxy
pub mod Cdc
pub mod Sink
pub mod Metrics
