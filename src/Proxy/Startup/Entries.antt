-- ===== src/Proxy/Startup/Entries.antt =====
-- What a startup message that is well formed gives, and which one ends in a panic.
use waltap.Prelude.{
  ℕ, suc, ◌+◌, ◌-◌, ◌≤◌, ◌<◌, ◌≡◌, ◌≢◌, refl, ap, ◌∙◌, List, [], ◌∷◌, ◌++◌, arith, length, take_all,
  drop_all, drop_past, length-append, Lacks, All, index_byte-append, Bytes, ok, panic, codes,
  bytes_eq, eq_of_bytes_eq, true, false, if◌then◌else◌, inl, inr, Bool-cases,
}
use waltap.Proxy.Startup.{
  Round, StartupParams, text_end, set_param, slice_from, value_round, key_round, params_loop,
  no_params, parse_startup_params,
}

text_end-append : (s t : Bytes) → Lacks 0 s → text_end (s ++ 0 ∷ t) ≡ length s
unfolding text_end
text_end-append s t h = rw (index_byte-append 0 s t h)

slice_from-append : (s t : Bytes) → slice_from (suc (length s)) (s ++ 0 ∷ t) ≡ ok t
unfolding slice_from
slice_from-append s t = ground (arith, length-append s (0 ∷ t), drop_past s 0 t)

value_round-text :
    (next : Round) (p : StartupParams) (key value rest : Bytes)
    → Lacks 0 value
    → value_round next p key (value ++ 0 ∷ rest) ≡ next (set_param p key value) rest
unfolding value_round
value_round-text next p key value rest h =
    ground
      (arith, text_end-append value rest h, slice_from-append value rest, take_all value (0 ∷ rest))

key_round-text :
    (next : Round) (p : StartupParams) (key rest : Bytes)
    → Lacks 0 key
    → key_round next p (key ++ 0 ∷ rest) ≡ value_round next p key rest
unfolding key_round
key_round-text next p key rest h =
    ground (arith, text_end-append key rest h, slice_from-append key rest, take_all key (0 ∷ rest))

params_loop-suc :
    (fuel : ℕ) (p : StartupParams) (s : Bytes)
    → 1 < length s
    → params_loop (suc fuel) p s ≡ key_round (params_loop fuel) p s
unfolding params_loop
params_loop-suc fuel p [] h = absurd (omega arith)
params_loop-suc fuel p (c ∷ []) h = absurd (omega arith)
params_loop-suc fuel p (c ∷ d ∷ s) h = refl

abbrev pub entry : Bytes × Bytes → Bytes → Bytes
entry (key, value) rest = key ++ 0 ∷ (value ++ 0 ∷ rest)

abbrev pub IsEntry : Bytes × Bytes → Type 0
IsEntry (key, value) = Lacks 0 key × Lacks 0 value

-- One round over a key and a value, each behind its NUL, sets the parameter.
params_loop-entry :
    (fuel : ℕ) (p : StartupParams) (key value rest : Bytes)
    → Lacks 0 key
    → Lacks 0 value
    → params_loop (suc fuel) p (entry (key, value) rest)
      ≡ params_loop fuel (set_param p key value) rest
params_loop-entry fuel p key value rest h k =
    params_loop-suc fuel p _
      (omega (arith, length-append key (0 ∷ (value ++ 0 ∷ rest)), length-append value (0 ∷ rest)))
    ∙ key_round-text (params_loop fuel) p key (value ++ 0 ∷ rest) h
    ∙ value_round-text (params_loop fuel) p key value rest k

abbrev pub entries : List (Bytes × Bytes) → Bytes → Bytes
entries [] rest = rest
entries (kv ∷ kvs) rest = entry kv (entries kvs rest)

-- The parameters in order, one round each.
abbrev apply_params : StartupParams → List (Bytes × Bytes) → StartupParams
apply_params p [] = p
apply_params p ((key, value) ∷ kvs) = apply_params (set_param p key value) kvs

-- The last value that a key has, or else this one.
abbrev pub last_or : Bytes → Bytes → List (Bytes × Bytes) → Bytes
last_or key value [] = value
last_or key value ((k, w) ∷ kvs) = last_or key (if bytes_eq k key then w else value) kvs

user_no_database :
    (key : Bytes) → bytes_eq key (codes "user") ≡ true → bytes_eq key (codes "database") ≡ false
user_no_database key e =
    let same = eq_of_bytes_eq key (codes "user") e in rw same (unfold bytes_eq in refl)

set_param-last :
    (p : StartupParams) (key value : Bytes)
    → set_param p key value ≡ record {
      user = if bytes_eq key (codes "user") then value else p.user;
      database = if bytes_eq key (codes "database") then value else p.database;
    }
unfolding set_param
set_param-last p key value = elim (Bool-cases (bytes_eq key (codes "user"))) [
  | inl e ↦ rw (set_param, e, user_no_database key e)
  | inr e ↦ elim (Bool-cases (bytes_eq key (codes "database"))) [
    | inl d ↦ rw (set_param, e, d)
    | inr d ↦ rw (set_param, e, d)
  ]
]

apply_params-last :
    (kvs : List (Bytes × Bytes)) (p : StartupParams)
    → apply_params p kvs ≡ record {
      user = last_or (codes "user") p.user kvs;
      database = last_or (codes "database") p.database kvs;
    }
apply_params-last [] p = refl
apply_params-last ((key, value) ∷ kvs) p =
    ap (λ q. apply_params q kvs) (set_param-last p key value) ∙ apply_params-last kvs _

params_loop-entries :
    (fuel : ℕ) (p : StartupParams) (kvs : List (Bytes × Bytes)) (rest : Bytes)
    → All IsEntry kvs
    → params_loop (length kvs + fuel) p (entries kvs rest)
      ≡ params_loop fuel (apply_params p kvs) rest
params_loop-entries fuel p [] rest h = ap (λ (n : ℕ). params_loop n p rest) (omega arith)
params_loop-entries fuel p ((key, value) ∷ kvs) rest h =
    ap (λ (n : ℕ). params_loop n p (entry (key, value) (entries kvs rest))) (omega arith)
    ∙ params_loop-entry (length kvs + fuel) p key value (entries kvs rest) h.0.0 h.0.1
    ∙ params_loop-entries fuel (set_param p key value) kvs rest h.1

length-entries :
    (kvs : List (Bytes × Bytes)) (rest : Bytes)
    → length kvs + length rest ≤ length (entries kvs rest)
length-entries [] rest = omega arith
length-entries ((key, value) ∷ kvs) rest = omega (
  arith,
  length-append key (0 ∷ (value ++ 0 ∷ entries kvs rest)),
  length-append value (0 ∷ entries kvs rest),
  length-entries kvs rest,
)

-- A key with nothing behind its NUL: the slice behind the value starts past the end.
params_loop-no_value :
    (fuel : ℕ) (p : StartupParams) (key : Bytes)
    → Lacks 0 key
    → key ≢ []
    → params_loop (suc fuel) p (key ++ 0 ∷ []) ≡ panic
unfolding value_round
params_loop-no_value fuel p [] h ne = absurd (ne refl)
params_loop-no_value fuel p (c ∷ key) h ne =
    params_loop-suc fuel p _ (omega (arith, length-append key (0 ∷ [])))
    ∙ key_round-text (params_loop fuel) p (c ∷ key) [] h

-- The parser on a header of eight bytes and entries, at the rounds that are left behind them.
parse_startup_params-entries :
    (header : Bytes) (kvs : List (Bytes × Bytes)) (rest : Bytes)
    → length header ≡ 8
    → All IsEntry kvs
    → (fuel : ℕ) × (parse_startup_params (header ++ entries kvs rest)
        ≡ params_loop (suc fuel) (apply_params no_params kvs) rest)
unfolding parse_startup_params
parse_startup_params-entries header kvs rest eight h = (
  8 + length (entries kvs rest) - length kvs,
  start
      ∙ ap (λ (n : ℕ). params_loop n no_params (entries kvs rest)) rounds
      ∙ params_loop-entries _ no_params kvs rest h,
)
  where
    start :
        parse_startup_params (header ++ entries kvs rest)
        ≡ params_loop (suc (8 + length (entries kvs rest))) no_params (entries kvs rest)
    start = ground (
      arith,
      length-append header (entries kvs rest),
      rw eight at (drop_all header (entries kvs rest)),
    )

    rounds :
        suc (8 + length (entries kvs rest))
        ≡ length kvs + suc (8 + length (entries kvs rest) - length kvs)
    rounds = omega (arith, length-entries kvs rest)

-- A startup message of keys and values without NUL, closed by an empty key, gives the last value
-- that it has for user and for database, and an empty one for a key that it does not have.
pub parse_startup_params-message :
    (header : Bytes) (kvs : List (Bytes × Bytes))
    → length header ≡ 8
    → All IsEntry kvs
    → parse_startup_params (header ++ entries kvs (0 ∷ []))
      ≡ ok (record {
        user = last_or (codes "user") [] kvs;
        database = last_or (codes "database") [] kvs;
      })
unfolding params_loop
parse_startup_params-message header kvs eight h =
    (parse_startup_params-entries header kvs (0 ∷ []) eight h).1
    ∙ ap ok (apply_params-last kvs no_params)

-- A message whose last key has its NUL and nothing behind it makes the parser panic.
pub parse_startup_params-no_value :
    (header : Bytes) (kvs : List (Bytes × Bytes)) (key : Bytes)
    → length header ≡ 8
    → All IsEntry kvs
    → Lacks 0 key
    → key ≢ []
    → parse_startup_params (header ++ entries kvs (key ++ 0 ∷ [])) ≡ panic
parse_startup_params-no_value header kvs key eight h k ne =
    let (fuel, e) = parse_startup_params-entries header kvs (key ++ 0 ∷ []) eight h in
    e ∙ params_loop-no_value fuel (apply_params no_params kvs) key k ne
