-- ===== src/Sink/Options.antt =====
-- internal/sink/retry.go: the options of `NewRetrySink` and its defaults. `wrap` is the text that
-- `fmt.Errorf` makes of an event and an error.
use waltap.Prelude.{ℕ, Option, List, [], ◌∷◌}
use waltap.Sink.Retry.{Answer, refused, RetrySink}

-- Durations are in nanoseconds.
abbrev pub default_base_delay : ℕ
default_base_delay = 100_000_000

abbrev pub default_max_delay : ℕ
default_max_delay = 30_000_000_000

abbrev pub RetryOption : Type 0 → Type 0 → Type 0 → Type 0
RetryOption W A E = RetrySink W A E → RetrySink W A E

module _ {W A E : Type 0} where
  abbrev pub with_max_attempts : ℕ → RetryOption W A E
  with_max_attempts n r = record r { max_attempts = n }

  abbrev pub with_base_delay : ℕ → RetryOption W A E
  with_base_delay d r = record r { base_delay = d }

  abbrev pub with_max_delay : ℕ → RetryOption W A E
  with_max_delay d r = record r { max_delay = d }

  abbrev pub with_on_failure : (W → A → Option E → W × Answer E) → RetryOption W A E
  with_on_failure f r = record r { on_failure = f }

  abbrev apply_options : List (RetryOption W A E) → RetryOption W A E
  apply_options [] r = r
  apply_options (opt ∷ opts) r = apply_options opts (opt r)

  unfoldable pub new_retry_sink :
      (A → Option E → E) → (W → A → W × Option E) → List (RetryOption W A E) → RetrySink W A E
  new_retry_sink wrap inner opts = apply_options opts (record {
    inner = inner;
    max_attempts = 5;
    base_delay = default_base_delay;
    max_delay = default_max_delay;
    on_failure = λ w event last. (w, refused (wrap event last));
  })
