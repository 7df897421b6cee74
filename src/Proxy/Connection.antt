-- ===== src/Proxy/Connection.antt =====
-- internal/proxy/proxy.go: `handleClient` from the first byte: the SSL request, the startup
-- message, the greeting, and the loop over the messages.
pub mod Safety
pub mod Framed
use waltap.Prelude.{
  ℕ, zero, suc, ◌+◌, ◌*◌, Bool, true, false, ◌&&◌, Option, none, some, List, [], ◌∷◌, length, drop,
  ◌==◌, if◌then◌else◌, Bytes, codes, Outcome, ok, err, panic,
}
use waltap.Proxy.Wire.{
  ReadError, read_startup_message, read_message, uint32, parameter_status, ready_for_query,
}
use waltap.Proxy.Startup.{parse_startup_params}
use waltap.Proxy.Session.{Env, Client, Io, follow, ◌>>◌, Session, send, send_all, handle_message}

-- Why the session ends. A panic ends the whole process.
pub data Reason : Type 0 where
  context_done disconnected panicked loop_unfinished : Reason
  startup_failed read_failed : ReadError → Reason
  write_failed : Bytes → Reason

pub record End : Type 0 where
  pub reason : Reason
  pub session : Session
  pub client : Client

abbrev is_terminate : Bytes → Bool
is_terminate [] = false
is_terminate (kind ∷ body) = kind == b'X'

-- AuthenticationOk, the ParameterStatus messages, and BackendKeyData
abbrev pub auth_ok : Bytes
auth_ok = b'R' ∷ 0 ∷ 0 ∷ 0 ∷ 8 ∷ 0 ∷ 0 ∷ 0 ∷ 0 ∷ []

abbrev pub server_params : List Bytes
server_params =
    parameter_status (codes "server_version") (codes "16.0 (pgproxy)")
    ∷ parameter_status (codes "client_encoding") (codes "UTF8")
    ∷ parameter_status (codes "server_encoding") (codes "UTF8")
    ∷ parameter_status (codes "DateStyle") (codes "ISO, MDY")
    ∷ parameter_status (codes "integer_datetimes") (codes "on")
    ∷ parameter_status (codes "standard_conforming_strings") (codes "on")
    ∷ []

abbrev pub key_data : Bytes
key_data = b'K' ∷ 0 ∷ 0 ∷ 0 ∷ 12 ∷ 0 ∷ 0 ∷ 0 ∷ 1 ∷ 0 ∷ 0 ∷ 0 ∷ 1 ∷ []

module _ (env : Env) where
  -- A round of the loop over the messages; `next` is the rounds that follow, and `round` counts
  -- the looks at the context.
  unfoldable pub message_round :
      (Session → Bytes → Client → End) → ℕ → Session → Bytes → Client → End
  unfolding handle_message
  message_round next round s input c = elim (env.cancelled round) [
    | true ↦ record { reason = context_done; session = s; client = c }
    | false ↦ elim (read_message input) [
      | err e ↦ record { reason = read_failed e; session = s; client = c }
      | panic ↦ record { reason = panicked; session = s; client = c }
      | ok (msg, rest) ↦ elim (is_terminate msg) [
        | true ↦ record { reason = disconnected; session = s; client = c }
        | false ↦ next (handle_message env s msg c).0 rest (handle_message env s msg c).1
      ]
    ]
  ]

  -- The loop, on fuel.
  unfoldable pub message_loop : ℕ → ℕ → Session → Bytes → Client → End
  unfolding message_round
  message_loop zero round s input c = record { reason = loop_unfinished; session = s; client = c }
  message_loop (suc fuel) round s input c =
      message_round (message_loop fuel (suc round)) round s input c

  -- `sendAuthOk`
  unfoldable pub send_auth_ok : Io
  unfolding send send_all
  send_auth_ok = do
    send env auth_ok
    send_all env server_params
    send env key_data
    send env (ready_for_query b'I')

  abbrev pub fresh_session : Session
  fresh_session = record { in_transaction = false; tx_failed = false }

  abbrev stopped : Reason → Client → End
  stopped why c = record { reason = why; session = fresh_session; client = c }

  -- Every message has at least five bytes, so a round for each byte is enough.
  enter_loop : Bytes → Client × Option Bytes → End
  unfolding message_loop
  enter_loop input (c, some e) = stopped (write_failed e) c
  enter_loop input (c, none) = message_loop (suc (length input)) 0 fresh_session input c

  -- Steps 2 to 4, from the startup message.
  greet : Bytes → Bytes → Client → End
  unfolding enter_loop send_auth_ok
  greet msg rest c = elim (parse_startup_params msg) [
    | ok params ↦ enter_loop rest (send_auth_ok c)
    | err e ↦ stopped loop_unfinished c
    | panic ↦ stopped panicked c
  ]

  unfoldable pub is_ssl_request : Bytes → Bool
  unfolding uint32
  is_ssl_request msg = length msg == 8 && uint32 (drop 4 msg) == 80877103

  greet_read : Outcome ReadError (Bytes × Bytes) → Client → End
  unfolding greet
  greet_read (ok (msg, rest)) c = greet msg rest c
  greet_read (err e) c = stopped (startup_failed e) c
  greet_read panic c = stopped panicked c

  refuse_ssl : Bytes → Client × Option Bytes → End
  unfolding greet_read
  refuse_ssl rest (c, some e) = stopped (write_failed e) c
  refuse_ssl rest (c, none) = greet_read (read_startup_message rest) c

  unfoldable pub handle_client : Bytes → Client → End
  unfolding refuse_ssl greet greet_read is_ssl_request
  handle_client input c = elim (read_startup_message input) [
    | ok (msg, rest) ↦
        if is_ssl_request msg then refuse_ssl rest (send env (b'N' ∷ []) c) else greet msg rest c
    | err e ↦ stopped (startup_failed e) c
    | panic ↦ stopped panicked c
  ]
