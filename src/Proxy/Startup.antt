-- ===== src/Proxy/Startup.antt =====
-- internal/proxy/proxy.go: the parameters of a startup message (`parseStartupParams`).
pub mod Ends
pub mod Entries
use mathlib.Core.Option.{get_or}
use waltap.Prelude.{
  ℕ, zero, suc, ◌+◌, Bool, true, false, List, [], ◌∷◌, length, take, drop, ltb, if◌then◌else◌,
  Bytes, codes, bytes_eq, index_byte, Outcome, ok, err, panic,
}

-- The loop on fuel ran out of it.
pub data OutOfFuel : Type 0 where
  out_of_fuel : OutOfFuel

pub record StartupParams : Type 0 where
  pub user : Bytes
  pub database : Bytes

-- The loops for `keyEnd` and `valEnd`: the first NUL, or 0 where there is none.
unfoldable pub text_end : Bytes → ℕ
unfolding index_byte
text_end params = get_or (index_byte params 0) 0

-- the `switch key`
unfoldable pub set_param : StartupParams → Bytes → Bytes → StartupParams
unfolding bytes_eq
set_param p key value =
    if bytes_eq key (codes "user")
    then record p { user = value }
    else if bytes_eq key (codes "database")
    then record p { database = value }
    else p

-- `params[end+1:]`, which panics where the index is past the end of the slice
unfoldable pub slice_from : ℕ → Bytes → Outcome OutOfFuel Bytes
slice_from i params = if ltb (length params) i then panic else ok (drop i params)

-- What a round does with the parameters so far and the rest of the message.
abbrev pub Round : Type 0
Round = StartupParams → Bytes → Outcome OutOfFuel StartupParams

-- A round behind the key: `rest` is what stands behind it, `next` the following round.
unfoldable pub value_round : Round → StartupParams → Bytes → Bytes → Outcome OutOfFuel StartupParams
unfolding text_end set_param slice_from
value_round next p key rest = elim (slice_from (suc (text_end rest)) rest) [
  | ok rest' ↦ next (set_param p key (take (text_end rest) rest)) rest'
  | err e ↦ err e
  | panic ↦ panic
]

-- A round: the key, and the value behind it.
unfoldable pub key_round : Round → StartupParams → Bytes → Outcome OutOfFuel StartupParams
unfolding text_end slice_from value_round
key_round next p params = elim (slice_from (suc (text_end params)) params) [
  | ok rest ↦ value_round next p (take (text_end params) params) rest
  | err e ↦ err e
  | panic ↦ panic
]

-- `for len(params) > 1`
unfoldable pub params_loop : ℕ → StartupParams → Bytes → Outcome OutOfFuel StartupParams
unfolding key_round
params_loop zero p params = err out_of_fuel
params_loop (suc fuel) p [] = ok p
params_loop (suc fuel) p (c ∷ []) = ok p
params_loop (suc fuel) p (c ∷ d ∷ params) = key_round (params_loop fuel) p (c ∷ d ∷ params)

abbrev pub no_params : StartupParams
no_params = record { user = []; database = [] }

unfoldable pub parse_startup_params : Bytes → Outcome OutOfFuel StartupParams
unfolding params_loop
parse_startup_params msg =
    if ltb (length msg) 8
    then ok no_params
    else params_loop (suc (length msg)) no_params (drop 8 msg)
