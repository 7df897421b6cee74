-- ===== src/Proxy/ServerTests.antt =====
-- internal/proxy: the server's theorems at concrete inputs.
use waltap.Prelude.{
  ℕ, ◌%◌, ◌^◌, ◌≡◌, refl, true, false, none, [], ◌∷◌, ◌++◌, inl, inr, All, Bytes, codes, length,
  bytes_eq, trim_space, has_prefix, index_byte, to_upper, contains, if◌then◌else◌,
}
use waltap.Proxy.Connection.{
  handle_client, send_auth_ok, message_loop, message_round, is_ssl_request,
}
use waltap.Proxy.Startup.{parse_startup_params, params_loop}
use waltap.Proxy.Wire.{
  read_startup_message, uint32, read_full, read_message, extract_sql, until_nul,
}
use waltap.Proxy.Classifier.{
  classify_query, strip_leading_comments, strip_loop, strip_round, skip_block, first_token,
  classify_stripped, classify_word, is_one_of,
}
use waltap.Proxy.Session.{
  send, send_all, handle_message, handle_query, route_query, route_as, execute_and_relay, relay,
  relay_rows, Backend, replica, rows, Env,
}
use waltap.Proxy.Session.Routing.{IsSafe}
use waltap.Proxy.Server.{
  Proxy, Network, Serving, serve, new_proxy, set_up, process_down, new_conn, Conn, session_panics,
  accept_client, accept_failed, give_statement, end_client, truncate_sql,
}
use waltap.Proxy.Server.Steps.{Reaches, here, further, accepts, gives, ends, cancels, accept_fails}
use waltap.Proxy.Server.SetUp.{owned, made, set_up-owned, IsReady, IfEntered}
use waltap.Proxy.Server.Served.{Reaches-active_conns, Reaches-IsSafe, Reaches-returned, PoolsIn}
use waltap.Proxy.Server.Crash.{one_client_stops_all}

-- Pools are told apart by the length of what they connect to; the replica's cannot be made.
abbrev net : Network ℕ ℕ
net = record {
  listen = λ address. inr (length address);
  close_listener = λ ln. none;
  new_pool =
      λ dsn. if bytes_eq dsn (codes "replica") then inl (codes "refused") else inr (length dsn);
  ping = λ pool. none;
}

abbrev proxy : Proxy ℕ ℕ
proxy = record {
  listen_addr = codes ":6432";
  primary_dsn = codes "primary";
  replica_dsn = codes "replica";
  listener = none;
  primary_pool = none;
  replica_pool = none;
  active_conns = 0;
}

test_new_proxy : new_proxy (codes ":6432") (codes "primary") (codes "replica") ≡ proxy
unfolding new_proxy
test_new_proxy = refl

test_truncate : truncate_sql (codes "SELECT 1") ≡ codes "SELECT 1"
unfolding truncate_sql
test_truncate = refl

set_up-owned_example :
    (owned (set_up net 4 proxy).1
      ≡ made (net.new_pool proxy.primary_dsn) (net.new_pool proxy.replica_dsn))
    × IfEntered (set_up net 4 proxy).1 (IsReady net proxy)
set_up-owned_example = set_up-owned net 4 proxy

abbrev env : Env
env = record {
  write_error = λ n. none;
  query = λ n pool sql. rows [] [] none (λ closed. codes "SELECT 1");
  cancelled = λ n. false;
}

-- A startup message without parameters, one statement, and the end.
abbrev session : Bytes
session =
    (0 ∷ 0 ∷ 0 ∷ 8 ∷ 0 ∷ 3 ∷ 0 ∷ 0 ∷ b'Q' ∷ 0 ∷ 0 ∷ 0 ∷ 13 ∷ [])
    ++ (codes "SELECT 1" ++ 0 ∷ b'X' ∷ 0 ∷ 0 ∷ 0 ∷ 4 ∷ [])

abbrev conn : Conn
conn = new_conn env session

abbrev select : Backend × Bytes
select = (replica, codes "SELECT 1")

conn_runs :
    (conn.remaining ≡ select ∷ []) × (session_panics (record conn { remaining = [] }) ≡ false)
unfolding new_conn session_panics handle_client read_startup_message uint32 read_full is_ssl_request
    parse_startup_params params_loop send_auth_ok send send_all message_loop message_round
    read_message handle_message handle_query route_query route_as execute_and_relay relay relay_rows
    extract_sql until_nul classify_query strip_leading_comments strip_loop strip_round skip_block
    trim_space has_prefix index_byte to_upper first_token classify_stripped classify_word is_one_of
    bytes_eq contains
conn_runs = (refl, refl)

abbrev first : Serving ℕ ℕ
first = serve proxy (9 ∷ 7 ∷ [])

abbrev accepted : Serving ℕ ℕ
accepted = accept_client env session first

abbrev asked : Serving ℕ ℕ
asked = give_statement [] conn [] select [] accepted

asked-Reaches : Reaches net first asked
unfolding accept_client
asked-Reaches =
    further (further here (accepts env session refl refl))
      (gives [] conn [] select [] (λ e. cc) refl conn_runs.0)

-- The session ends, the context is cancelled, and `Accept` fails.
abbrev idle : Serving ℕ ℕ
idle = end_client [] (record conn { remaining = [] }) [] asked

abbrev stopped : Serving ℕ ℕ
stopped = accept_failed (record idle { cancelled = true })

stopped-Reaches : Reaches net first stopped
unfolding accept_client end_client
stopped-Reaches =
    let ended : Reaches net first idle =
      further asked-Reaches (ends [] (record conn { remaining = [] }) [] (λ e. cc) refl refl) in
    let without : Reaches net first (record idle { cancelled = true }) = further ended cancels in
    further without (accept_fails (rw conn_runs.1))

Reaches-active_conns_example : asked.proxy.active_conns ≡ length asked.live % 2 ^ 64
Reaches-active_conns_example = Reaches-active_conns net proxy (9 ∷ 7 ∷ []) asked refl asked-Reaches

Reaches-IsSafe_example : All IsSafe asked.queried
Reaches-IsSafe_example = Reaches-IsSafe net proxy (9 ∷ 7 ∷ []) asked asked-Reaches

Reaches-returned_example :
    PoolsIn (9 ∷ 7 ∷ []) stopped.phase stopped.cancelled stopped.closed stopped.deferred
Reaches-returned_example = Reaches-returned net proxy (9 ∷ 7 ∷ []) stopped stopped-Reaches

one_client_stops_all_example :
    (t : Serving ℕ ℕ) × Reaches net accepted t
    × (t.phase ≡ process_down)
    × (t.queried ≡ accepted.queried)
    × (t.live ≡ accepted.live)
unfolding accept_client
one_client_stops_all_example = one_client_stops_all net env accepted refl refl
