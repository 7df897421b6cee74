-- ===== src/Proxy/Startup/Ends.antt =====
-- The loop over the startup parameters ends on every message.
use waltap.Prelude.{
  ℕ, zero, suc, ◌<◌, ◌≡◌, ◌≢◌, inl, inr, [], ◌∷◌, arith, length, length-drop, take, drop, Bytes,
  Bool-cases, ltb, ◌⊎◌, ok, err, panic,
}
use waltap.Proxy.Startup.{
  Round, out_of_fuel, StartupParams, text_end, slice_from, value_round, key_round, params_loop,
  no_params, parse_startup_params,
}

-- A slice that does not panic is shorter than what it is cut from.
slice_from_cases :
    (i : ℕ) (s : Bytes)
    → (slice_from (suc i) s ≡ panic)
      ⊎ ((t : Bytes) × (slice_from (suc i) s ≡ ok t) × (length t < length s))
unfolding slice_from
slice_from_cases i s = elim (Bool-cases (ltb (length s) (suc i))) [
  | inl e ↦ inl (rw e)
  | inr e ↦ inr (drop (suc i) s, rw e, ground (arith, length-drop (suc i) s))
]

-- A round cannot run out of fuel if the next one, on a shorter text, does not.
IsBounded : Round → ℕ → Type 0
IsBounded next n = (p : StartupParams) (s : Bytes) → length s < n → next p s ≢ err out_of_fuel

value_round-ends :
    (next : Round) (p : StartupParams) (key rest : Bytes) (n : ℕ)
    → IsBounded next n
    → length rest < n
    → value_round next p key rest ≢ err out_of_fuel
unfolding value_round IsBounded
value_round-ends next p key rest n h le = elim (slice_from_cases (text_end rest) rest) [
  | inl e ↦ rw (e, value_round) (λ q. cc)
  | inr (t, e, lt) ↦ rw (e, value_round) (h _ t (omega arith))
]

key_round-ends :
    (next : Round) (p : StartupParams) (s : Bytes)
    → IsBounded next (length s)
    → key_round next p s ≢ err out_of_fuel
unfolding key_round
key_round-ends next p s h = elim (slice_from_cases (text_end s) s) [
  | inl e ↦ rw (e, key_round) (λ q. cc)
  | inr (t, e, lt) ↦
      rw (e, key_round) (value_round-ends next p (take (text_end s) s) t (length s) h lt)
]

-- On fuel above the length the loop ends: with a result, or in a panic.
params_loop-ends :
    (fuel : ℕ) (p : StartupParams) (s : Bytes)
    → length s < fuel
    → params_loop fuel p s ≢ err out_of_fuel
unfolding params_loop IsBounded
params_loop-ends zero p s h = elim h [ ]
params_loop-ends (suc fuel) p [] h = λ q. cc
params_loop-ends (suc fuel) p (c ∷ []) h = λ q. cc
params_loop-ends (suc fuel) p (c ∷ d ∷ s) h =
    key_round-ends (params_loop fuel) p (c ∷ d ∷ s)
      (λ q t lt. params_loop-ends fuel q t (omega arith))

-- The parser ends on every message: with the parameters, or in a panic.
pub parse_startup_params-ends : (msg : Bytes) → parse_startup_params msg ≢ err out_of_fuel
unfolding parse_startup_params
parse_startup_params-ends msg = elim (Bool-cases (ltb (length msg) 8)) [
  | inl e ↦ rw (e, parse_startup_params) (λ q. cc)
  | inr e ↦
      rw (e, parse_startup_params)
        (params_loop-ends (suc (length msg)) no_params (drop 8 msg)
          (omega (arith, length-drop 8 msg)))
]
