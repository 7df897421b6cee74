-- ===== src/Proxy/Server.antt =====
-- internal/proxy/proxy.go: the server around the sessions: `NewProxy`, `ListenAndRun`, `Run` up to
-- its loop, the steps of the loop and of the goroutines beside it, `ActiveConns` and `Close`. The
-- listeners of net (`L`) and the pools of pgxpool (`P`) are parameters; an int64 is kept by its
-- bits. Log lines are left out.
pub mod Steps
pub mod SetUp
pub mod Served
pub mod Crash
use waltap.Prelude.{
  ℕ, ◌+◌, ◌-◌, ◌%◌, ◌^◌, Bool, true, false, Option, none, some, List, [], ◌∷◌, ◌++◌, ltb,
  if◌then◌else◌, Bytes, codes, length, take, ◌⊎◌, inl, inr,
}
use waltap.Proxy.Session.{Backend, Env, Client}
use waltap.Proxy.Connection.{Reason, panicked, handle_client}

pub record Proxy (L P : Type 0) : Type 0 where
  pub listen_addr : Bytes
  pub primary_dsn : Bytes
  pub replica_dsn : Bytes
  pub listener : Option L
  pub primary_pool : Option P
  pub replica_pool : Option P
  pub active_conns : ℕ

-- What net and pgxpool answer, by an error or by what was asked for.
pub record Network (L P : Type 0) : Type 0 where
  pub listen : Bytes → Bytes ⊎ L
  pub close_listener : L → Option Bytes
  pub new_pool : Bytes → Bytes ⊎ P
  pub ping : P → Option Bytes

pub data RunError : Type 0 where
  listen_failed connect_primary connect_replica ping_primary ping_replica : Bytes → RunError

-- Where `Run` is in front of its loop: the pools whose closing is deferred, the last one first, or
-- the error that it returns behind the deferred calls, with the pools that these have closed.
pub data Start (P : Type 0) : Type 0 where
  entered : (deferred : List P) → Start P
  refused : RunError → (closed : List P) → Start P

module _ {L P : Type 0} where
  unfoldable pub new_proxy : Bytes → Bytes → Bytes → Proxy L P
  new_proxy listen_addr primary_dsn replica_dsn = record {
    listen_addr = listen_addr;
    primary_dsn = primary_dsn;
    replica_dsn = replica_dsn;
    listener = none;
    primary_pool = none;
    replica_pool = none;
    active_conns = 0;
  }

  module _ (net : Network L P) where
    -- the pings, behind the pools
    abbrev pub ping_pools : Proxy L P → P → P → Option Bytes → Option Bytes → Proxy L P × Start P
    ping_pools p main replica (some e) _ = (p, refused (ping_primary e) (replica ∷ main ∷ []))
    ping_pools p main replica none (some e) = (p, refused (ping_replica e) (replica ∷ main ∷ []))
    ping_pools p main replica none none = (p, entered (replica ∷ main ∷ []))

    -- The second pool; a pool that could not be made is nil.
    abbrev pub with_replica : Proxy L P → P → Bytes ⊎ P → Proxy L P × Start P
    with_replica p main (inr replica) =
        ping_pools (record p { replica_pool = some replica }) main replica (net.ping main)
          (net.ping replica)
    with_replica p main (inl e) =
        (record p { replica_pool = none }, refused (connect_replica e) (main ∷ []))

    abbrev pub with_primary : Proxy L P → Bytes ⊎ P → Proxy L P × Start P
    with_primary p (inr main) =
        with_replica (record p { primary_pool = some main }) main (net.new_pool p.replica_dsn)
    with_primary p (inl e) = (record p { primary_pool = none }, refused (connect_primary e) [])

    -- `Run`, up to its loop.
    unfoldable pub set_up : L → Proxy L P → Proxy L P × Start P
    set_up ln p = with_primary (record p { listener = some ln }) (net.new_pool p.primary_dsn)

    abbrev pub run_on : Proxy L P → Bytes ⊎ L → Proxy L P × Start P
    run_on p (inr ln) = set_up ln p
    run_on p (inl e) = (p, refused (listen_failed e) [])

    -- `ListenAndRun`, up to the loop.
    unfoldable pub listen_and_run : Proxy L P → Proxy L P × Start P
    unfolding set_up
    listen_and_run p = run_on p (net.listen p.listen_addr)

-- A session under way: what its client meets and sends, and the statements that it still gives.
pub record Conn : Type 0 where
  pub env : Env
  pub input : Bytes
  pub remaining : List (Backend × Bytes)

abbrev pub new_client : Client
new_client = record { sent = []; writes = 0; queried = [] }

-- The goroutine of a connection, in front of `handleClient`.
unfoldable pub new_conn : Env → Bytes → Conn
new_conn env input = record {
  env = env;
  input = input;
  remaining = (handle_client env input new_client).client.queried;
}

abbrev panics : Reason → Bool
panics panicked = true
panics _ = false

-- Whether `handleClient` panics.
unfoldable pub session_panics : Conn → Bool
session_panics c = panics (handle_client c.env c.input new_client).reason

pub data Phase : Type 0 where
  accepting returned process_down : Phase

-- `Run` in its loop, with the goroutines beside it: the pools whose closing is deferred, those that
-- are closed, the sessions under way, and the statements given to the pools, in order.
pub record Serving (L P : Type 0) : Type 0 where
  pub proxy : Proxy L P
  pub phase : Phase
  pub cancelled : Bool
  pub listener_closed : Bool
  pub deferred : List P
  pub closed : List P
  pub live : List Conn
  pub queried : List (Backend × Bytes)

module _ {L P : Type 0} where
  abbrev pub serve : Proxy L P → List P → Serving L P
  serve p deferred = record {
    proxy = p;
    phase = accepting;
    cancelled = false;
    listener_closed = false;
    deferred = deferred;
    closed = [];
    live = [];
    queried = [];
  }

  -- `activeConns.Add`
  abbrev pub add_conns : ℕ → Serving L P → Serving L P
  add_conns n s = record s {
    proxy = record s.proxy { active_conns = (s.proxy.active_conns + n) % 2 ^ 64 };
  }

  -- `Accept` gives a connection, and its goroutine starts.
  unfoldable pub accept_client : Env → Bytes → Serving L P → Serving L P
  accept_client env input s = record (add_conns 1 s) { live = s.live ++ new_conn env input ∷ [] }

  -- `return nil`: behind it, the deferred calls close the pools.
  abbrev pub return_nil : Serving L P → Serving L P
  return_nil s = record s { phase = returned; deferred = []; closed = s.closed ++ s.deferred }

  -- `Accept` fails.
  unfoldable pub accept_failed : Serving L P → Serving L P
  accept_failed s = if s.cancelled then return_nil s else s

  -- A session gives its next statement to a pool; `others` are the sessions before and behind it.
  abbrev pub give_statement :
      List Conn
      → Conn
      → List Conn
      → Backend × Bytes
      → List (Backend × Bytes)
      → Serving L P
      → Serving L P
  give_statement before c after q rest s = record s {
    live = before ++ (record c { remaining = rest }) ∷ after;
    queried = s.queried ++ q ∷ [];
  }

  -- A session ends: the deferred `Add(-1)`, and the end of the process where it panicked.
  unfoldable pub end_client : List Conn → Conn → List Conn → Serving L P → Serving L P
  end_client before c after s = record (add_conns (2 ^ 64 - 1) s) {
    live = before ++ after;
    phase = if session_panics c then process_down else s.phase;
  }

  -- The goroutine behind `ctx.Done()`, whose error is not looked at.
  abbrev pub listener_done : Serving L P → Serving L P
  listener_done s = record s { listener_closed = true }

  abbrev pub close_listener : Network L P → Option L → Serving L P → Serving L P × Option Bytes
  close_listener net none s = (s, none)
  close_listener net (some ln) s = (record s { listener_closed = true }, net.close_listener ln)

  -- `Close`
  unfoldable pub close : Network L P → Serving L P → Serving L P × Option Bytes
  close net s = close_listener net s.proxy.listener s

-- `truncateSQL`
unfoldable pub truncate_sql : Bytes → Bytes
truncate_sql sql = if ltb 60 (length sql) then take 57 sql ++ codes "..." else sql
