-- ===== src/Proxy/Connection/Framed.antt =====
-- What the proxy sends on a connection, from its first byte.
use waltap.Prelude.{
  ℕ, zero, suc, ◌≡◌, refl, ap, ◌⊎◌, inl, inr, Option, none, some, List, [], ◌∷◌, ◌++◌, length, take,
  Bytes, All, Bool-cases, Option-cases, Outcome-cases, Outcome, ok, err, panic,
}
use waltap.Proxy.Wire.{
  ReadError, put_uint32, read_startup_message, parameter_status, ready_for_query,
}
use waltap.Proxy.Wire.Frames.{parameter_status-frame, ready_for_query-frame}
use waltap.Proxy.Startup.{parse_startup_params}
use waltap.Proxy.Session.{Env, Client, ◌>>◌, Session, send, send_all}
use waltap.Proxy.Session.Framed.{
  IsFrame, AreWritten, FramedBehind, KeepsFramed, send-KeepsFramed, >>-KeepsFramed,
  send_all-KeepsFramed, handle_message-FramedBehind,
}
use waltap.Proxy.Connection.{
  auth_ok, server_params, key_data, End, message_loop, send_auth_ok, enter_loop, greet, greet_read,
  refuse_ssl, handle_client, is_ssl_request,
}
use waltap.Proxy.Connection.Safety.{message_round_cases}

module _ (env : Env) (base : List Bytes) where
  message_loop-FramedBehind :
      (fuel round : ℕ) (s : Session) (input : Bytes) (c : Client)
      → FramedBehind env base c
      → FramedBehind env base (message_loop env fuel round s input c).client
  unfolding message_loop
  message_loop-FramedBehind zero round s input c f = f
  message_loop-FramedBehind (suc fuel) round s input c f =
      message_round_cases env (λ r. FramedBehind env base r.client)
        (message_loop env fuel (suc round)) round s input c (λ why ne. f)
        (λ msg rest lt.
          message_loop-FramedBehind fuel (suc round) _ rest _
            (handle_message-FramedBehind env s msg base c f))

  enter_loop-FramedBehind :
      (input : Bytes) (r : Client × Option Bytes)
      → FramedBehind env base r.0
      → FramedBehind env base (enter_loop env input r).client
  unfolding enter_loop
  enter_loop-FramedBehind input (c, some e) f = f
  enter_loop-FramedBehind input (c, none) f =
      message_loop-FramedBehind (suc (length input)) 0 _ input c f

  auth_ok-IsFrame : IsFrame auth_ok
  auth_ok-IsFrame = (b'R', 0 ∷ 0 ∷ 0 ∷ 0 ∷ [], unfold put_uint32 in refl)

  key_data-IsFrame : IsFrame key_data
  key_data-IsFrame = (b'K', 0 ∷ 0 ∷ 0 ∷ 1 ∷ 0 ∷ 0 ∷ 0 ∷ 1 ∷ [], unfold put_uint32 in refl)

  status-IsFrame : (key value : Bytes) → IsFrame (parameter_status key value)
  status-IsFrame key value = (b'S', key ++ 0 ∷ (value ++ 0 ∷ []), parameter_status-frame key value)

  server_params-IsFrame : All IsFrame server_params
  server_params-IsFrame = (
    status-IsFrame _ _,
    (
      status-IsFrame _ _,
      (status-IsFrame _ _, (status-IsFrame _ _, (status-IsFrame _ _, (status-IsFrame _ _, tt)))),
    ),
  )

  send_auth_ok-KeepsFramed : KeepsFramed env (send_auth_ok env)
  unfolding send_auth_ok
  send_auth_ok-KeepsFramed =
      let ready = send env (ready_for_query b'I') in
      let key = send env key_data in
      let params = send_all env server_params in
      >>-KeepsFramed env (send env auth_ok) (params >> (key >> ready))
        (send-KeepsFramed env auth_ok auth_ok-IsFrame)
        (>>-KeepsFramed env params (key >> ready)
          (send_all-KeepsFramed env server_params server_params-IsFrame)
          (>>-KeepsFramed env key ready (send-KeepsFramed env key_data key_data-IsFrame)
            (send-KeepsFramed env _ (b'Z', b'I' ∷ [], ready_for_query-frame b'I'))))

  greet-FramedBehind :
      (msg rest : Bytes) (c : Client)
      → FramedBehind env base c
      → FramedBehind env base (greet env msg rest c).client
  unfolding greet
  greet-FramedBehind msg rest c f = elim (Outcome-cases (parse_startup_params msg)) [
    | inl (p, e) ↦
        rw (e, greet) (enter_loop-FramedBehind rest _ (send_auth_ok-KeepsFramed base c f))
    | inr (inl (x, e)) ↦ rw (e, greet) f
    | inr (inr e) ↦ rw (e, greet) f
  ]

  greet_read-FramedBehind :
      (r : Outcome ReadError (Bytes × Bytes)) (c : Client)
      → FramedBehind env base c
      → FramedBehind env base (greet_read env r c).client
  unfolding greet_read
  greet_read-FramedBehind (ok (msg, rest)) c f = greet-FramedBehind msg rest c f
  greet_read-FramedBehind (err e) c f = f
  greet_read-FramedBehind panic c f = f

-- What is sent is what its writes have written of messages, or this behind the one byte that
-- refuses SSL, or what a failing write has written of that.
abbrev pub IsReplied : Env → List Bytes → Type 0
IsReplied env sent =
    AreWritten env 0 sent
    ⊎ ((pieces : List Bytes) × (env.write_error 0 ≡ none)
        × (sent ≡ (b'N' ∷ []) ∷ pieces)
        × AreWritten env 1 pieces)
    ⊎ ((n : ℕ) × (e : Bytes) × (env.write_error 0 ≡ some (n, e)) × (sent ≡ take n (b'N' ∷ []) ∷ []))

FramedBehind-IsReplied :
    (env : Env) (r : End) → FramedBehind env [] r.client → IsReplied env r.client.sent
FramedBehind-IsReplied env r (pieces, e, n, h) = inl (rw e h)

module _ (env : Env) where
  -- The first write.
  abbrev Written : Bytes → Client × Option Bytes → Type 0
  Written msg r =
      ((r.1 ≡ none) × (env.write_error 0 ≡ none) × (r.0.sent ≡ msg ∷ []) × (r.0.writes ≡ 1))
      ⊎ ((e : Bytes) × (n : ℕ) × (r.1 ≡ some e)
          × (env.write_error 0 ≡ some (n, e))
          × (r.0.sent ≡ take n msg ∷ []))

  send-Written :
      (msg : Bytes) (c : Client) → c.sent ≡ [] → c.writes ≡ 0 → Written msg (send env msg c)
  unfolding send
  send-Written msg c nothing first = elim (Option-cases (env.write_error c.writes)) [
    | inl e ↦
        rw (e, send)
          (inl (refl, rw first at e, ap (λ l. l ++ msg ∷ []) nothing, ap (λ (n : ℕ). suc n) first))
    | inr ((n, x), e) ↦
        rw (e, send) (inr (x, n, refl, rw first at e, ap (λ l. l ++ take n msg ∷ []) nothing))
  ]

  refuse_ssl-IsReplied :
      (rest : Bytes) (r : Client × Option Bytes)
      → Written (b'N' ∷ []) r
      → IsReplied env (refuse_ssl env rest r).client.sent
  unfolding refuse_ssl
  refuse_ssl-IsReplied rest (c, none) (inl (done, fine, sent, count)) =
      let (pieces, all, n, h) =
        greet_read-FramedBehind env ((b'N' ∷ []) ∷ []) (read_startup_message rest) c
          ([], sent, count, tt) in
      inr (inl (pieces, fine, all, h))
  refuse_ssl-IsReplied rest (c, none) (inr (x, n, bad, why, sent)) = absurd (cc)
  refuse_ssl-IsReplied rest (c, some e) (inl (bad, fine, sent, count)) = absurd (cc)
  refuse_ssl-IsReplied rest (c, some e) (inr (x, n, same, why, sent)) = inr (inr (n, x, why, sent))

-- Whatever bytes a client sends, and whatever fails, what the proxy sends it is a sequence of
-- messages, each a kind, the length of what follows, in 32 bits, and as many bytes, and each whole
-- where its write succeeds, and else as many bytes of it as the write has written, behind at most
-- one byte, N, which refuses SSL, and is the last one where its write fails.
pub handle_client-IsReplied :
    (env : Env) (input : Bytes) (c : Client)
    → c.sent ≡ []
    → c.writes ≡ 0
    → IsReplied env (handle_client env input c).client.sent
unfolding handle_client
handle_client-IsReplied env input c nothing first =
    elim (Outcome-cases (read_startup_message input)) [
      | inr (inl (x, e)) ↦ rw (e, handle_client) (inl (rw nothing tt))
      | inr (inr e) ↦ rw (e, handle_client) (inl (rw nothing tt))
      | inl ((msg, rest), e) ↦ elim (Bool-cases (is_ssl_request env msg)) [
        | inl f ↦
            rw (e, handle_client, f)
              (refuse_ssl-IsReplied env rest (send env (b'N' ∷ []) c)
                (send-Written env (b'N' ∷ []) c nothing first))
        | inr f ↦
            rw (e, handle_client, f)
              (FramedBehind-IsReplied env (greet env msg rest c)
                (greet-FramedBehind env [] msg rest c ([], nothing, first, tt)))
      ]
    ]
