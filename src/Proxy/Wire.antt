-- ===== src/Proxy/Wire.antt =====
-- internal/proxy/proxy.go: the messages that the proxy writes to a client, and how it reads one.
-- A signed field is kept as its two's complement bit pattern, which is what is written.
pub mod Frames
pub mod RoundTrip
use waltap.Prelude.{
  ℕ, zero, suc, ◌+◌, ◌-◌, ◌*◌, ◌/◌, ◌%◌, ◌^◌, Bool, true, false, ◌||◌, Option, none, some, List, [],
  ◌∷◌, ◌++◌, length, take, drop, replicate, get_elem?, ltb, ◌==◌, if◌then◌else◌, Bytes, codes,
  index_byte, Outcome, ok, err, panic, ◌>>=◌,
}

-- `binary.BigEndian.PutUint32` and `PutUint16`, behind a conversion to that width
unfoldable pub put_uint32 : ℕ → Bytes
put_uint32 n = (n / 2 ^ 24 % 256) ∷ (n / 2 ^ 16 % 256) ∷ (n / 2 ^ 8 % 256) ∷ (n % 256) ∷ []

unfoldable pub put_uint16 : ℕ → Bytes
put_uint16 n = (n / 2 ^ 8 % 256) ∷ (n % 256) ∷ []

-- `make([]byte, size)`, then written from the left; what does not fit is not written.
unfoldable pub fill : ℕ → Bytes → Bytes
fill size content = take size (content ++ replicate size 0)

unfoldable pub parameter_status : Bytes → Bytes → Bytes
unfolding fill put_uint32
parameter_status key value =
    let payload_len = 4 + length key + 1 + length value + 1 in
    fill (1 + payload_len) (b'S' ∷ (put_uint32 payload_len ++ (key ++ 0 ∷ (value ++ 0 ∷ []))))

unfoldable pub ready_for_query : ℕ → Bytes
ready_for_query status = b'Z' ∷ 0 ∷ 0 ∷ 0 ∷ 5 ∷ status ∷ []

abbrev pub severity : Bytes
severity = codes "ERROR"

unfoldable pub error_response : Bytes → Bytes
unfolding fill put_uint32
error_response message =
    let payload_len = 4 + 1 + length severity + 1 + 1 + length message + 1 + 1 in
    fill (1 + payload_len)
      (b'E' ∷ (put_uint32 payload_len ++ b'S' ∷ (severity ++ 0 ∷ b'M' ∷ (message ++ 0 ∷ 0 ∷ []))))

unfoldable pub command_complete : Bytes → Bytes
unfolding fill put_uint32
command_complete tag =
    let payload_len = 4 + length tag + 1 in
    fill (1 + payload_len) (b'C' ∷ (put_uint32 payload_len ++ (tag ++ 0 ∷ [])))

pub record FieldDescription : Type 0 where
  pub name : Bytes
  pub table_oid : ℕ
  pub table_attribute_number : ℕ
  pub data_type_oid : ℕ
  pub data_type_size : ℕ
  pub type_modifier : ℕ
  pub format : ℕ

-- the first loop of `sendRowDescription`: the size of the fields
unfoldable pub fields_size : List FieldDescription → ℕ
fields_size [] = 0
fields_size (f ∷ fs) = (length f.name + 1 + 4 + 2 + 4 + 2 + 4 + 2) + fields_size fs

unfoldable pub put_field : FieldDescription → Bytes
unfolding put_uint32 put_uint16
put_field f =
    f.name
    ++ 0
      ∷ (put_uint32 f.table_oid
          ++ (put_uint16 f.table_attribute_number
              ++ (put_uint32 f.data_type_oid
                  ++ (put_uint16 f.data_type_size
                      ++ (put_uint32 f.type_modifier ++ put_uint16 f.format)))))

unfoldable pub put_fields : List FieldDescription → Bytes
unfolding put_field
put_fields [] = []
put_fields (f ∷ fs) = put_field f ++ put_fields fs

unfoldable pub row_description : List FieldDescription → Bytes
unfolding fill put_uint32 put_uint16 put_fields fields_size
row_description fields =
    let size = 4 + 2 + fields_size fields in
    fill (1 + size) (b'T' ∷ (put_uint32 size ++ (put_uint16 (length fields) ++ put_fields fields)))

-- the first loop of `sendDataRow`; `none` is NULL
unfoldable pub columns_size : List (Option Bytes) → ℕ
columns_size [] = 0
columns_size (none ∷ vs) = 4 + columns_size vs
columns_size (some v ∷ vs) = (4 + length v) + columns_size vs

unfoldable pub put_column : Option Bytes → Bytes
unfolding put_uint32
put_column none = put_uint32 0xFFFFFFFF
put_column (some v) = put_uint32 (length v) ++ v

unfoldable pub put_columns : List (Option Bytes) → Bytes
unfolding put_column
put_columns [] = []
put_columns (v ∷ vs) = put_column v ++ put_columns vs

unfoldable pub data_row : List (Option Bytes) → Bytes
unfolding fill put_uint32 put_uint16 put_columns columns_size
data_row values =
    let size = 4 + 2 + columns_size values in
    fill (1 + size) (b'D' ∷ (put_uint32 size ++ (put_uint16 (length values) ++ put_columns values)))

pub data ReadError : Type 0 where
  eof unexpected_eof : ReadError
  invalid_length : ℕ → ReadError

-- `io.ReadFull` from a connection whose unread bytes are given; it ends behind them.
unfoldable pub read_full : ℕ → Bytes → Outcome ReadError (Bytes × Bytes)
read_full zero input = ok ([], input)
read_full (suc n) [] = err eof
read_full (suc n) (c ∷ input) =
    if ltb (length input) n then err unexpected_eof else ok (c ∷ take n input, drop n input)

-- `binary.BigEndian.Uint32`
unfoldable pub uint32 : Bytes → ℕ
uint32 (a ∷ b ∷ c ∷ d ∷ rest) = ((a * 256 + b) * 256 + c) * 256 + d
uint32 _ = 0

-- `readRawMessage(r, true)`
unfoldable pub read_startup_message : Bytes → Outcome ReadError (Bytes × Bytes)
unfolding read_full uint32
read_startup_message input = do
  (len_buf, rest) ← read_full 4 input
  let msg_len = uint32 len_buf
  if ltb msg_len 4 || ltb 10000 msg_len
      then err (invalid_length msg_len)
      else (do (body, rest') ← read_full (msg_len - 4) rest; ok (len_buf ++ body, rest'))

-- `readRawMessage(r, false)`
unfoldable pub read_message : Bytes → Outcome ReadError (Bytes × Bytes)
unfolding read_full uint32
read_message input = do
  (header, rest) ← read_full 5 input
  let msg_len = uint32 (drop 1 header)
  if ltb msg_len 4
      then err (invalid_length msg_len)
      else (do (body, rest') ← read_full (msg_len - 4) rest; ok (header ++ body, rest'))

-- The text up to its first NUL, or all of it.
unfoldable pub until_nul : Bytes → Bytes
until_nul [] = []
until_nul (c ∷ s) = if c == 0 then [] else c ∷ until_nul s

-- The text behind its first NUL, or all of it.
unfoldable pub skip_name : Bytes → Bytes
unfolding index_byte
skip_name payload = elim (index_byte payload 0) [ none ↦ payload | some i ↦ drop (suc i) payload ]

unfoldable pub extract_sql : Bytes → Bytes
unfolding until_nul skip_name
extract_sql [] = []
extract_sql (kind ∷ rest) =
    if ltb (length rest) 5
    then []
    else if kind == b'Q'
    then until_nul (drop 4 rest)
    else if kind == b'P'
    then until_nul (skip_name (drop 4 rest))
    else []
