-- ===== src/Proxy/Connection/Safety.antt =====
-- A whole connection ends, and reaches the replica with reads only.
use waltap.Prelude.{
  ℕ, zero, suc, ◌+◌, ◌-◌, ◌≤◌, ◌<◌, ◌≡◌, ◌≢◌, ap, inl, inr, [], ◌∷◌, ◌++◌, arith, Option, none,
  some, length, drop, Bytes, All, Bool-cases, if◌then◌else◌, ltb, length-drop, ◌>>=◌,
  value_of_chain, Outcome-cases, Outcome, ok, err, panic, ◌==◌,
}
use waltap.Proxy.Wire.{
  ReadError, read_full, invalid_length, uint32, read_message, read_startup_message, extract_sql,
  ready_for_query,
}
use waltap.Proxy.Startup.{parse_startup_params, out_of_fuel}
use waltap.Proxy.Startup.Ends.{parse_startup_params-ends}
use waltap.Proxy.Session.{Env, Client, ◌>>◌, Session, send, send_all, handle_message}
use waltap.Proxy.Session.Writes.{Quiet, send-Quiet, >>-Quiet, send_all-Quiet, send_failure-queried}
use waltap.Proxy.Session.Routing.{IsSafe, handle_query-IsSafe}
use waltap.Proxy.Connection.{
  auth_ok, server_params, key_data, Reason, loop_unfinished, End, is_terminate, message_round,
  message_loop, send_auth_ok, enter_loop, greet, greet_read, refuse_ssl, handle_client,
  is_ssl_request,
}

-- What is read is taken off the input.
read_full_shorter :
    (n : ℕ) (s : Bytes) {msg rest : Bytes}
    → read_full n s ≡ ok (msg, rest)
    → length rest + n ≡ length s
unfolding read_full
read_full_shorter zero s e = ground arith
read_full_shorter (suc n) [] e = cc
read_full_shorter (suc n) (c ∷ s) e = ground (arith, length-drop n s)

-- `readRawMessage` behind the header.
abbrev read_body : Bytes → ℕ → Bytes → Outcome ReadError (Bytes × Bytes)
read_body header size after =
    if ltb size 4
    then err (invalid_length size)
    else (do (body, rest') ← read_full (size - 4) after; ok (header ++ body, rest'))

body_shorter :
    (header after msg rest : Bytes) (size : ℕ)
    → read_body header size after ≡ ok (msg, rest)
    → length rest ≤ length after
body_shorter header after msg rest size e = elim (Bool-cases (ltb size 4)) [
  | inl f ↦ let no_message = rw f at e in cc
  | inr f ↦
      let ((body, rest'), g, h) = value_of_chain (read_full (size - 4) after) _ (rw f at e) in
      let same : rest' ≡ rest = cc in
      omega (arith, read_full_shorter (size - 4) after g, ap length same)
]

read_message_shorter :
    (s msg rest : Bytes) → read_message s ≡ ok (msg, rest) → length rest < length s
unfolding read_message
read_message_shorter s msg rest e =
    let ((header, after), first, second) = value_of_chain (read_full 5 s) _ e in
    omega (
      arith,
      read_full_shorter 5 s first,
      body_shorter header after msg rest (uint32 (drop 1 header)) second,
    )

module _ (env : Env) where
  -- What holds where the loop stops, and behind the next rounds, holds behind a round.
  pub message_round_cases {ℓ} :
      (P : End → Type ℓ) (next : Session → Bytes → Client → End) (round : ℕ) (s : Session)
      (input : Bytes) (c : Client)
      → ((why : Reason)
          → why ≢ loop_unfinished
          → P (record { reason = why; session = s; client = c }))
      → ((msg rest : Bytes)
          → length rest < length input
          → P (next (handle_message env s msg c).0 rest (handle_message env s msg c).1))
      → P (message_round env next round s input c)
  unfolding message_round
  message_round_cases P next round s input c stops goes = elim (Bool-cases (env.cancelled round)) [
    | inl stop ↦ rw (stop, message_round) (stops _ (λ q. cc))
    | inr go ↦ elim (Outcome-cases (read_message input)) [
      | inr (inl (e, fail)) ↦ rw (go, message_round, fail) (stops _ (λ q. cc))
      | inr (inr crash) ↦ rw (go, message_round, crash) (stops _ (λ q. cc))
      | inl ((msg, rest), e) ↦ elim (Bool-cases (is_terminate msg)) [
        | inl bye ↦ rw (go, message_round, e, bye) (stops _ (λ q. cc))
        | inr more ↦
            rw (go, message_round, e, more) (goes msg rest (read_message_shorter input msg rest e))
      ]
    ]
  ]

  -- With a round for each byte the loop never runs out of fuel.
  message_loop-ends :
      (fuel round : ℕ) (s : Session) (input : Bytes) (c : Client)
      → length input < fuel
      → (message_loop env fuel round s input c).reason ≢ loop_unfinished
  unfolding message_loop
  message_loop-ends zero round s input c h = elim h [ ]
  message_loop-ends (suc fuel) round s input c h =
      message_round_cases (λ r. r.reason ≢ loop_unfinished) (message_loop env fuel (suc round))
        round s input c (λ why ne. ne)
        (λ msg rest lt. message_loop-ends fuel (suc round) _ rest _ (omega arith))

  handle_message-IsSafe :
      (s : Session) (msg : Bytes) (c : Client)
      → All IsSafe c.queried
      → All IsSafe (handle_message env s msg c).1.queried
  unfolding handle_message
  handle_message-IsSafe s [] c h = h
  handle_message-IsSafe s (kind ∷ body) c h = elim (Bool-cases (kind == b'Q')) [
    | inl q ↦ rw (q, handle_message) (handle_query-IsSafe env s (extract_sql (kind ∷ body)) c h)
    | inr q ↦ rw (q, handle_message, send_failure-queried env _ b'I' c) h
  ]

  message_loop-IsSafe :
      (fuel round : ℕ) (s : Session) (input : Bytes) (c : Client)
      → All IsSafe c.queried
      → All IsSafe (message_loop env fuel round s input c).client.queried
  unfolding message_loop
  message_loop-IsSafe zero round s input c h = h
  message_loop-IsSafe (suc fuel) round s input c h =
      message_round_cases (λ r. All IsSafe r.client.queried) (message_loop env fuel (suc round))
        round s input c (λ why ne. h)
        (λ msg rest lt.
          message_loop-IsSafe fuel (suc round) _ rest _ (handle_message-IsSafe s msg c h))

  abbrev pub EndsSafely : End → Type 0
  EndsSafely r = (r.reason ≢ loop_unfinished) × All IsSafe r.client.queried

  enter_loop-EndsSafely :
      (input : Bytes) (r : Client × Option Bytes)
      → All IsSafe r.0.queried
      → EndsSafely (enter_loop env input r)
  unfolding enter_loop
  enter_loop-EndsSafely input (c, some e) h = (λ q. cc, h)
  enter_loop-EndsSafely input (c, none) h = (
    message_loop-ends (suc (length input)) 0 _ input c (omega arith),
    message_loop-IsSafe (suc (length input)) 0 _ input c h,
  )

  send_auth_ok-Quiet : Quiet (send_auth_ok env)
  unfolding send_auth_ok
  send_auth_ok-Quiet =
      let ready = send env (ready_for_query b'I') in
      let key = send env key_data in
      let params = send_all env server_params in
      >>-Quiet env (send env auth_ok) (params >> (key >> ready)) (send-Quiet env auth_ok) (
        >>-Quiet env params (key >> ready) (send_all-Quiet env server_params) (
          >>-Quiet env key ready (send-Quiet env key_data) (send-Quiet env (ready_for_query b'I'))))

  greet-EndsSafely :
      (msg rest : Bytes) (c : Client) → All IsSafe c.queried → EndsSafely (greet env msg rest c)
  unfolding greet
  greet-EndsSafely msg rest c h = elim (Outcome-cases (parse_startup_params msg)) [
    | inl (p, e) ↦
        rw (e, greet)
          (enter_loop-EndsSafely rest (send_auth_ok env c) (rw (send_auth_ok-Quiet c) h))
    | inr (inl (out_of_fuel, e)) ↦ absurd (parse_startup_params-ends msg e)
    | inr (inr e) ↦ rw (e, greet) (λ q. cc, h)
  ]

  greet_read-EndsSafely :
      (r : Outcome ReadError (Bytes × Bytes)) (c : Client)
      → All IsSafe c.queried
      → EndsSafely (greet_read env r c)
  unfolding greet_read
  greet_read-EndsSafely (ok (msg, rest)) c h = greet-EndsSafely msg rest c h
  greet_read-EndsSafely (err e) c h = (λ q. cc, h)
  greet_read-EndsSafely panic c h = (λ q. cc, h)

  refuse_ssl-EndsSafely :
      (rest : Bytes) (r : Client × Option Bytes)
      → All IsSafe r.0.queried
      → EndsSafely (refuse_ssl env rest r)
  unfolding refuse_ssl
  refuse_ssl-EndsSafely rest (c, some e) h = (λ q. cc, h)
  refuse_ssl-EndsSafely rest (c, none) h = greet_read-EndsSafely (read_startup_message rest) c h

-- Whatever bytes a client sends, and whatever fails, the session ends, and every statement that
-- it gave to the replica was classified as a read.
pub handle_client-EndsSafely :
    (env : Env) (input : Bytes) (c : Client)
    → All IsSafe c.queried
    → ((handle_client env input c).reason ≢ loop_unfinished)
      × All IsSafe (handle_client env input c).client.queried
unfolding handle_client
handle_client-EndsSafely env input c h = elim (Outcome-cases (read_startup_message input)) [
  | inl ((msg, rest), e) ↦ elim (Bool-cases (is_ssl_request env msg)) [
    | inl f ↦
        rw (e, handle_client, f)
          (refuse_ssl-EndsSafely env rest _ (rw (send-Quiet env (b'N' ∷ []) c) h))
    | inr f ↦ rw (e, handle_client, f) (greet-EndsSafely env msg rest c h)
  ]
  | inr (inl (err_, e)) ↦ rw (e, handle_client) (λ q. cc, h)
  | inr (inr e) ↦ rw (e, handle_client) (λ q. cc, h)
]
