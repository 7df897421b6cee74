-- ===== src/Proxy/Wire/RoundTrip.antt =====
-- What a client reads back: the columns of a row, and the statement of a query message.
use mathlib.Core.Option
use waltap.Prelude.{
  ℕ, zero, suc, ◌+◌, ◌<◌, ◌≡◌, refl, Option, none, some, List, [], ◌∷◌, ◌++◌, arith, length, take,
  drop, length-append, take_all, drop_all, append_assoc, All, Lacks, index_byte-append, drop_past,
  ◌==◌, if◌then◌else◌, Bytes,
}
use waltap.Proxy.Wire.{put_uint32, put_columns, uint32, until_nul, skip_name, extract_sql}
use waltap.Proxy.Wire.Frames.{frame, uint32-put_uint32}

-- The reader that the protocol's description gives for the columns of a DataRow: a length, -1 for
-- NULL, and that many bytes.
unfoldable pub read_columns : ℕ → Bytes → Option (List (Option Bytes))
unfolding uint32
read_columns zero s = some []
read_columns (suc n) s =
    let size = uint32 s in
    if size == 0xFFFFFFFF
    then Option.map (λ vs. none ∷ vs) (read_columns n (drop 4 s))
    else Option.map (λ vs. some (take size (drop 4 s)) ∷ vs) (read_columns n (drop size (drop 4 s)))

abbrev pub IsShort : Option Bytes → Type 0
IsShort none = Unit {0}
IsShort (some v) = length v < 0xFFFFFFFF

drop-put_uint32 : (n : ℕ) (s : Bytes) → drop 4 (put_uint32 n ++ s) ≡ s
unfolding put_uint32
drop-put_uint32 n s = refl

read_column :
    (n : ℕ) (s rest : Bytes) (size : ℕ)
    → uint32 s ≡ size
    → drop 4 s ≡ rest
    → read_columns (suc n) s ≡ (
        if size == 0xFFFFFFFF
        then Option.map (λ vs. none ∷ vs) (read_columns n rest)
        else Option.map (λ vs. some (take size rest) ∷ vs) (read_columns n (drop size rest)))
unfolding read_columns
read_column n s rest size e f = rw (← e, ← f)

put_columns-none :
    (vs : List (Option Bytes)) → put_columns (none ∷ vs) ≡ put_uint32 0xFFFFFFFF ++ put_columns vs
unfolding put_columns
put_columns-none vs = refl

put_columns-some :
    (v : Bytes) (vs : List (Option Bytes))
    → put_columns (some v ∷ vs) ≡ put_uint32 (length v) ++ (v ++ put_columns vs)
unfolding put_columns
put_columns-some v vs = append_assoc (put_uint32 (length v)) v (put_columns vs)

-- A client that splits a row by the lengths in it gets the values back, NULLs included.
pub read_columns-put_columns :
    (vs : List (Option Bytes))
    → All IsShort vs
    → read_columns (length vs) (put_columns vs) ≡ some vs
read_columns-put_columns [] h = unfold read_columns in refl
read_columns-put_columns (none ∷ vs) h = rw (
  put_columns-none vs,
  read_column (length vs) _ (put_columns vs) 0xFFFFFFFF
      (uint32-put_uint32 0xFFFFFFFF _ (omega arith)) (drop-put_uint32 0xFFFFFFFF _),
  read_columns-put_columns vs h.1,
)
read_columns-put_columns (some v ∷ vs) h =
    rw
      (
        put_columns-some v vs,
        read_column (length vs) _ (v ++ put_columns vs) (length v)
            (uint32-put_uint32 (length v) _ (omega arith)) (drop-put_uint32 (length v) _),
      )
      (ground (
        arith,
        take_all v (put_columns vs),
        drop_all v (put_columns vs),
        read_columns-put_columns vs h.1,
      ))

-- Neither a statement nor a name of the protocol holds a NUL.
abbrev pub IsText : Bytes → Type 0
IsText = Lacks 0

until_nul-append : (s t : Bytes) → IsText s → until_nul (s ++ 0 ∷ t) ≡ s
unfolding until_nul
until_nul-append [] t h = refl
until_nul-append (c ∷ s) t h = ground (arith, until_nul-append s t h.1)

skip_name-append : (s t : Bytes) → IsText s → skip_name (s ++ 0 ∷ t) ≡ t
unfolding skip_name
skip_name-append s t h = rw (index_byte-append 0 s t h, skip_name) (drop_past s 0 t)

abbrev pub query_message : Bytes → Bytes
query_message sql = frame b'Q' (sql ++ 0 ∷ [])

-- The Parse message of the extended protocol: a name, the statement, and the parameter types.
abbrev pub parse_message : Bytes → Bytes → Bytes → Bytes
parse_message name sql types = frame b'P' (name ++ 0 ∷ (sql ++ 0 ∷ types))

-- The statement of a Query message, and of a Parse message behind its name, is taken out whole.
pub extract_sql-message :
    (name sql types : Bytes)
    → IsText name
    → IsText sql
    → (extract_sql (query_message sql) ≡ sql) × (extract_sql (parse_message name sql types) ≡ sql)
unfolding extract_sql
extract_sql-message name sql types h k = (
  ground (
    arith,
    length-append (put_uint32 (4 + length (sql ++ 0 ∷ []))) (sql ++ 0 ∷ []),
    length-append sql (0 ∷ []),
    drop-put_uint32 (4 + length (sql ++ 0 ∷ [])) (sql ++ 0 ∷ []),
    until_nul-append sql [] k,
  ),
  ground (
    arith,
    length-append (put_uint32 (4 + length body)) body,
    length-append name (0 ∷ (sql ++ 0 ∷ types)),
    drop-put_uint32 (4 + length body) body,
    skip_name-append name (sql ++ 0 ∷ types) h,
    until_nul-append sql types k,
  ),
)
  where
    body : Bytes
    body = name ++ 0 ∷ (sql ++ 0 ∷ types)
