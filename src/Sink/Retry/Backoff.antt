-- ===== src/Sink/Retry/Backoff.antt =====
-- The delays between attempts, before they are scaled.
use waltap.Prelude.{ℕ, suc, ◌*◌, ◌^◌, ◌≤◌, ◌<◌, ◌≡◌, sym, ap, ◌∙◌, arith, ltb, if◌then◌else◌}
use native.Mathlib.Nat.{pow-suc, mul_assoc, mul_comm}
use waltap.Sink.Retry.{backoff}

backoff-max :
    (out_of_range : ℕ → ℕ) (base max attempt : ℕ) → backoff out_of_range base max attempt ≤ max
unfolding backoff
backoff-max out_of_range base max attempt = ground arith

-- The delay for an exact product.
abbrev capped : (ℕ → ℕ) → ℕ → ℕ → ℕ
capped out_of_range max exact =
    let delay = if ltb exact (2 ^ 63) then exact else out_of_range exact in
    if ltb max delay then max else delay

capped_double :
    (out_of_range : ℕ → ℕ) (max e d : ℕ)
    → d ≡ 2 * e
    → d < 2 ^ 63
    → capped out_of_range max d
      ≡ (if ltb max (2 * capped out_of_range max e) then max else 2 * capped out_of_range max e)
capped_double out_of_range max e d double lt = ground (arith, double, lt)

-- A delay is at most the cap, and while the doubled value is below 2^63 the next one is twice as
-- long, up to the cap.
pub backoff-doubles :
    (out_of_range : ℕ → ℕ) (base max attempt : ℕ)
    → base * 2 ^ suc attempt < 2 ^ 63
    → (backoff out_of_range base max attempt ≤ max)
      × (backoff out_of_range base max (suc attempt) ≡ (
          if ltb max (2 * backoff out_of_range base max attempt)
          then max
          else 2 * backoff out_of_range base max attempt))
unfolding backoff
backoff-doubles out_of_range base max attempt lt = (
  backoff-max out_of_range base max attempt,
  let pow = pow-suc 2 attempt in
      let assoc = mul_assoc base (2 ^ attempt) 2 in
      let double : base * 2 ^ suc attempt ≡ 2 * (base * 2 ^ attempt) =
        ap (λ p. base * p) pow ∙ sym assoc ∙ mul_comm _ 2 in
      capped_double out_of_range max (base * 2 ^ attempt) (base * 2 ^ suc attempt) double lt,
)
