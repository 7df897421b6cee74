-- ===== src/Proxy/Server/Served.antt =====
-- What holds however the loop, the sessions and the calls from outside interleave: the counter of
-- connections, the statements given to the replica, and the pools.
use waltap.Prelude.{
  ℕ, ◌+◌, ◌-◌, ◌%◌, ◌^◌, ◌≡◌, ◌≢◌, refl, ap, Bool, true, false, Option, none, some, List, [], ◌∷◌,
  ◌++◌, arith, All, All-append, Bytes, length, length-append, if◌then◌else◌,
}
use waltap.Proxy.Session.{Backend, Env}
use waltap.Proxy.Session.Routing.{IsSafe}
use waltap.Proxy.Connection.Safety.{handle_client-EndsSafely}
use waltap.Proxy.Server.{
  Phase, Proxy, Network, accepting, returned, process_down, Conn, Serving, serve, accept_client,
  accept_failed, give_statement, end_client, listener_done, close, new_client, new_conn,
  close_listener, return_nil, session_panics,
}
use waltap.Proxy.Server.Steps.{
  Step, cancels, listener_closes, closes, accepts, accept_fails, gives, ends, Reaches, here,
  further,
}

-- Up and down again, in 64 bits.
add_one : (n : ℕ) → (n % 2 ^ 64 + 1) % 2 ^ 64 ≡ (n + 1) % 2 ^ 64
add_one n = omega arith

minus_one : (n : ℕ) → ((n + 1) % 2 ^ 64 + (2 ^ 64 - 1)) % 2 ^ 64 ≡ n % 2 ^ 64
minus_one n = omega arith

length-middle :
    {A : Type 0} (before : List A) (x : A) (after : List A)
    → length (before ++ x ∷ after) ≡ length (before ++ after) + 1
length-middle before x after =
    omega (arith, length-append before (x ∷ after), length-append before after)

if-kept {ℓ κ} :
    {A : Type ℓ} (Q : A → Type κ) (b : Bool) (x y : A)
    → (b ≡ true → Q x)
    → (b ≡ false → Q y)
    → Q (if b then x else y)
if-kept Q true x y h h' = h refl
if-kept Q false x y h h' = h' refl

module _ {A : Type 0} (Q : A → Type 0) where
  All-split :
      (before : List A) (x : A) (after : List A)
      → All Q (before ++ x ∷ after)
      → Q x × ((y : A) → Q y → All Q (before ++ y ∷ after)) × All Q (before ++ after)
  All-split [] x after (qx, h) = (qx, λ y qy. (qy, h), h)
  All-split (b ∷ before) x after (qb, h) =
      let (qx, put, left) = All-split before x after h in (qx, λ y qy. (qb, put y qy), (qb, left))

-- Which pools are closed, and which are to be, by the phase.
abbrev pub PoolsIn : {P : Type 0} → List P → Phase → Bool → List P → List P → Type 0
PoolsIn pools accepting cancelled closed deferred = (closed ≡ []) × (deferred ≡ pools)
PoolsIn pools returned cancelled closed deferred = (cancelled ≡ true) × (closed ≡ pools)
PoolsIn pools process_down cancelled closed deferred = Unit {0}

module _ {L P : Type 0} (net : Network L P) where
  -- The counter, and the sessions with it.
  abbrev IsCounted : Serving L P → Type 0
  IsCounted s = s.proxy.active_conns ≡ length s.live % 2 ^ 64

  close_listener-kept {ℓ} :
      (Q : Serving L P → Type ℓ) (ln : Option L) (s : Serving L P)
      → Q s
      → Q (listener_done s)
      → Q (close_listener net ln s).0
  close_listener-kept Q none s h h' = h
  close_listener-kept Q (some ln) s h h' = h'

  -- What neither looks at the context nor at the listener holds behind a step if it holds behind
  -- those that start, carry on and end a session, and the one of an error of `Accept`.
  step_kept {ℓ} :
      (Q : Serving L P → Type ℓ) (s t : Serving L P)
      → Q s
      → Q (record s { cancelled = true })
      → Q (listener_done s)
      → ((env : Env) (input : Bytes) → s.phase ≡ accepting → Q (accept_client env input s))
      → (s.phase ≡ accepting → Q (accept_failed s))
      → ((before : List Conn) (c : Conn) (after : List Conn) (q : Backend × Bytes)
            (rest : List (Backend × Bytes))
          → s.live ≡ before ++ c ∷ after
          → c.remaining ≡ q ∷ rest
          → Q (give_statement before c after q rest s))
      → ((before : List Conn) (c : Conn) (after : List Conn)
          → s.phase ≢ process_down
          → s.live ≡ before ++ c ∷ after
          → Q (end_client before c after s))
      → Step net s t
      → Q t
  unfolding close
  step_kept Q s t h k l a f g e cancels = k
  step_kept Q s t h k l a f g e (listener_closes c) = l
  step_kept Q s t h k l a f g e closes = close_listener-kept Q s.proxy.listener s h l
  step_kept Q s t h k l a f g e (accepts env input p o) = a env input p
  step_kept Q s t h k l a f g e (accept_fails p) = f p
  step_kept Q s t h k l a f g e (gives before c after q rest up live left) =
      g before c after q rest live left
  step_kept Q s t h k l a f g e (ends before c after up live left) = e before c after up live

  accept_failed-kept {ℓ} :
      (Q : Serving L P → Type ℓ) (s : Serving L P)
      → Q s
      → (s.cancelled ≡ true → Q (return_nil s))
      → Q (accept_failed s)
  unfolding accept_failed
  accept_failed-kept Q s h h' = if-kept Q s.cancelled (return_nil s) s h' (λ c. h)

  step-IsCounted : (s t : Serving L P) → IsCounted s → Step net s t → IsCounted t
  unfolding accept_client end_client
  step-IsCounted s t h =
      step_kept IsCounted s t h h h
        (λ env input p.
          omega (arith, h, add_one (length s.live), length-append s.live (new_conn env input ∷ [])))
        (λ p. accept_failed-kept IsCounted s h (λ c. h))
        (λ before c after q rest live left. omega (
          arith,
          h,
          ap length live,
          length-middle before c after,
          length-middle before (record c { remaining = rest }) after,
        ))
        (λ before c after up live. omega (
          arith,
          h,
          ap length live,
          length-middle before c after,
          minus_one (length (before ++ after)),
        ))

  -- The statements given so far, and those that the sessions under way still give.
  abbrev IsGuarded : Serving L P → Type 0
  IsGuarded s = All IsSafe s.queried × All (λ c. All IsSafe c.remaining) s.live

  new_conn-IsSafe : (env : Env) (input : Bytes) → All IsSafe (new_conn env input).remaining
  unfolding new_conn
  new_conn-IsSafe env input = (handle_client-EndsSafely env input new_client tt).1

  step-IsGuarded : (s t : Serving L P) → IsGuarded s → Step net s t → IsGuarded t
  unfolding accept_client end_client
  step-IsGuarded s t h =
      let Guarded = λ (c : Conn). All IsSafe c.remaining in
      step_kept IsGuarded s t h h h
        (λ env input p. (h.0, All-append Guarded s.live _ h.1 (new_conn-IsSafe env input, tt)))
        (λ p. accept_failed-kept IsGuarded s h (λ c. h))
        (λ before c after q rest live left.
          let (mine, put, others) = All-split Guarded before c after (rw live at h.1) in
          let (first, more) : IsSafe q × All IsSafe rest = rw left at mine in
          (All-append IsSafe s.queried (q ∷ []) h.0 (first, tt), put _ more))
        (λ before c after up live.
          let (mine, put, others) = All-split Guarded before c after (rw live at h.1) in
          (h.0, others))

  -- The pools are open until the loop returns, which it does only on a cancelled context.
  abbrev IsOwned : List P → Serving L P → Type 0
  IsOwned pools s = PoolsIn pools s.phase s.cancelled s.closed s.deferred

  PoolsIn-cancelled :
      (pools : List P) (phase : Phase) (cancelled : Bool) (closed deferred : List P)
      → PoolsIn pools phase cancelled closed deferred
      → PoolsIn pools phase true closed deferred
  PoolsIn-cancelled pools accepting cancelled closed deferred h = h
  PoolsIn-cancelled pools returned cancelled closed deferred h = (refl, h.1)
  PoolsIn-cancelled pools process_down cancelled closed deferred h = tt

  return_nil-IsOwned :
      (pools : List P) (s : Serving L P)
      → s.phase ≡ accepting
      → s.cancelled ≡ true
      → IsOwned pools s
      → IsOwned pools (return_nil s)
  return_nil-IsOwned pools s p c h =
      let (none_closed, all) : (s.closed ≡ []) × (s.deferred ≡ pools) = rw p at h in
      (c, rw none_closed all)

  step-IsOwned :
      (pools : List P) (s t : Serving L P) → IsOwned pools s → Step net s t → IsOwned pools t
  unfolding accept_client end_client
  step-IsOwned pools s t h =
      step_kept (IsOwned pools) s t h
        (PoolsIn-cancelled pools s.phase s.cancelled s.closed s.deferred h) h (λ env input p. h)
        (λ p. accept_failed-kept (IsOwned pools) s h (λ c. return_nil-IsOwned pools s p c h))
        (λ before c after q rest live left. h)
        (λ before c after up live.
          if-kept (λ phase. PoolsIn pools phase s.cancelled s.closed s.deferred) (session_panics c)
            process_down s.phase (λ q. tt) (λ q. h))

  run_kept {ℓ} :
      (Q : Serving L P → Type ℓ)
      → ((s t : Serving L P) → Q s → Step net s t → Q t)
      → (s t : Serving L P) → Q s
      → Reaches net s t
      → Q t
  run_kept Q keeps s t h here = h
  run_kept Q keeps s t h (further r step) = keeps _ t (run_kept Q keeps s _ h r) step

  -- However the loop, the sessions, the context and calls of `Close` interleave, the counter of
  -- connections is, in 64 bits, the number of the sessions under way.
  pub Reaches-active_conns :
      (p : Proxy L P) (pools : List P) (s : Serving L P)
      → p.active_conns ≡ 0
      → Reaches net (serve p pools) s
      → s.proxy.active_conns ≡ length s.live % 2 ^ 64
  Reaches-active_conns p pools s zero_conns r =
      run_kept IsCounted step-IsCounted (serve p pools) s zero_conns r

  -- However many clients there are, whatever they send, and however their sessions interleave,
  -- every statement that is given to the replica was classified as a read.
  pub Reaches-IsSafe :
      (p : Proxy L P) (pools : List P) (s : Serving L P)
      → Reaches net (serve p pools) s
      → All IsSafe s.queried
  Reaches-IsSafe p pools s r = (run_kept IsGuarded step-IsGuarded (serve p pools) s (tt, tt) r).0

  -- While the loop runs no pool is closed; it returns only on a cancelled context, calls of
  -- `Close` or not, and the pools are closed then, each once and the last one first.
  pub Reaches-returned :
      (p : Proxy L P) (pools : List P) (s : Serving L P)
      → Reaches net (serve p pools) s
      → PoolsIn pools s.phase s.cancelled s.closed s.deferred
  Reaches-returned p pools s r =
      run_kept (IsOwned pools) (step-IsOwned pools) (serve p pools) s (refl, refl) r
