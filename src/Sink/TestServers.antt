-- ===== src/Sink/TestServers.antt =====
-- cmd/flaky-server and cmd/webhook-test-server: the handlers of the servers that the sinks are
-- tried against, and what retries make of the first one. Its counter is an int64, kept by its bits.
use waltap.Prelude.{
  ℕ, ◌+◌, ◌-◌, ◌%◌, ◌^◌, ◌≡◌, ◌<◌, Bool, true, false, ◌||◌, Option, none, some, [], ◌∷◌, leb,
  if◌then◌else◌, Bytes, codes, ◌++◌,
}
use waltap.Cdc.Event.{ChangeEvent}
use waltap.Cdc.Decode.{decimal}
use waltap.Sink.Retry.{delivered, Chances, RetrySink, deliver}
use waltap.Sink.Retry.Courses.{no_more, fails, deliver-recovers}
use waltap.Sink.Options.{new_retry_sink, with_max_attempts}
use waltap.Sink.Webhook.{
  Marshalled, marshalled, Http, responded, PostError, bad_status, post, webhook_deliver,
}

-- The response of a handler: its status and its body.
pub record Reply : Type 0 where
  pub status : ℕ
  pub body : Bytes

-- The number of a request, `count.Add(1)`.
abbrev pub next_count : ℕ → ℕ
next_count count = (count + 1) % 2 ^ 64

-- `n <= 2` on an int64: a negative number has its highest bit.
unfoldable pub fails_now : ℕ → Bool
fails_now n = leb n 2 || leb (2 ^ 63) n

-- What `%d` prints of an int64.
abbrev pub signed_decimal : ℕ → Bytes
signed_decimal n = if leb (2 ^ 63) n then b'-' ∷ decimal (2 ^ 64 - n) else decimal n

-- The flaky server's handler, behind the count.
unfoldable pub flaky_reply : ℕ → Reply
unfolding fails_now
flaky_reply n =
    if fails_now n
    then record { status = 500; body = codes "simulated failure #" ++ signed_decimal n }
    else record { status = 200; body = [] }

-- The other server's handler; `is_json` is what `json.Unmarshal` says of a body.
unfoldable pub webhook_test_reply : (Bytes → Bool) → Bytes → Reply
webhook_test_reply is_json body =
    if is_json body then record { status = 200; body = [] } else record { status = 400; body = [] }

-- The flaky server behind a client that reaches it.
abbrev pub flaky_http : {E : Type 0} → Http ℕ E
flaky_http = record {
  new_request = λ url. none;
  send = λ count request. (next_count count, responded (flaky_reply (next_count count)).status);
}

module _ {V E : Type 0} (url : Bytes) (marshal : ChangeEvent V → Marshalled E)
    (wrap : ChangeEvent V → Option (PostError E) → PostError E) where
  abbrev pub flaky_sink : ℕ → RetrySink ℕ (ChangeEvent V) (PostError E)
  flaky_sink max_attempts =
      new_retry_sink wrap (webhook_deliver flaky_http url marshal)
        (with_max_attempts max_attempts ∷ [])

  flaky_post :
      (event : ChangeEvent V) (body : Bytes)
      → marshal event ≡ marshalled body
      → (webhook_deliver (flaky_http {E = E}) url marshal 0 event ≡ (1, some (bad_status 500)))
        × (webhook_deliver (flaky_http {E = E}) url marshal 1 event ≡ (2, some (bad_status 500)))
        × (webhook_deliver (flaky_http {E = E}) url marshal 2 event ≡ (3, none))
  unfolding webhook_deliver post flaky_reply
  flaky_post event body e = (rw e, rw e, rw e)

  -- An event that can be encoded and is posted to the flaky server, new, with three attempts or
  -- more, the context being live and the delays passing, fails twice and is then delivered.
  pub flaky_server-delivered :
      (max_attempts : ℕ) (chances : Chances) (event : ChangeEvent V) (body : Bytes)
      (attempts successes exhausted : ℕ)
      → 2 < max_attempts
      → marshal event ≡ marshalled body
      → ((n : ℕ) → chances.cancelled n ≡ false)
      → ((n delay : ℕ) → chances.waited n delay ≡ true)
      → deliver
          (flaky_sink max_attempts)
          chances
          event
          (record { world = 0; attempts = attempts; successes = successes; exhausted = exhausted })
        ≡ (
          record {
            world = 3;
            attempts = attempts + 2;
            successes = successes + 1;
            exhausted = exhausted;
          },
          delivered,
        )
  unfolding new_retry_sink
  flaky_server-delivered max_attempts chances event body attempts successes exhausted more e live
        waits =
      let (first, second, third) = flaky_post event body e in
      deliver-recovers (flaky_sink max_attempts) chances event 2
        (record { world = 0; attempts = attempts; successes = successes; exhausted = exhausted }) 2
        3 (some (bad_status 500)) more
        (fails first (live 0) (waits 0 _) (fails second (live 1) (waits 1 _) no_more)) third
