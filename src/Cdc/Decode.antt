-- ===== src/Cdc/Decode.antt =====
-- internal/cdc/stream.go: a tuple of pgoutput as a map of column values (`decodeTuple`). The
-- messages are those of the library pglogrepl, and the codecs those of pgx.
pub mod Columns
use waltap.Prelude.{
  ℕ, zero, suc, ◌+◌, ◌/◌, ◌%◌, Bool, true, false, Option, none, some, List, [], ◌∷◌, ◌++◌, length,
  ◌==◌, if◌then◌else◌, Bytes, codes, Outcome, ok, err, panic,
}
use waltap.Cdc.Event.{Value, null, text, decoded, Row, insert}

-- A column of a tuple: its kind ('n', 'u', 't' or 'b') and its bytes.
pub record Column : Type 0 where
  pub data_type : ℕ
  pub bytes : Bytes

pub record RelationColumn : Type 0 where
  pub name : Bytes
  pub oid : ℕ

pub record RelationMessage : Type 0 where
  pub relation_id : ℕ
  pub namespace : Bytes
  pub relation_name : Bytes
  pub columns : List RelationColumn

pub data Format : Type 0 where
  text_format binary_format : Format

-- pgx's type map: `none` for an unknown OID, otherwise the codec, which may fail.
abbrev pub Codecs : Type 0 → Type 0
Codecs V = ℕ → Option (Format → Bytes → Option V)

-- `%d` of a number, on fuel; a number has at most as many digits as its value.
digits : ℕ → ℕ → Bytes → Bytes
digits zero n out = out
digits (suc fuel) n out =
    let more = digits fuel (n / 10) ((b'0' + n % 10) ∷ out) in if n == 0 then out else more

unfoldable pub decimal : ℕ → Bytes
unfolding digits
decimal n = if n == 0 then b'0' ∷ [] else digits n n []

module _ {V : Type 0} (codecs : Codecs V) where
  -- `decodeTextColumn`, and what its caller puts in for an error
  unfoldable pub text_value : Bytes → ℕ → Value V
  text_value bytes oid = elim (codecs oid) [
    | none ↦ text bytes
    | some codec ↦ elim (codec text_format bytes) [ none ↦ text bytes | some v ↦ decoded v ]
  ]

  abbrev pub binary_note : Bytes → Value V
  binary_note bytes = text (codes "(binary " ++ (decimal (length bytes) ++ codes " bytes)"))

  -- `decodeBinaryColumn`, and what its caller puts in for an error
  unfoldable pub binary_value : Bytes → ℕ → Value V
  unfolding decimal
  binary_value bytes oid = elim (codecs oid) [
    | none ↦ binary_note bytes
    | some codec ↦ elim (codec binary_format bytes) [
      | none ↦ binary_note bytes
      | some v ↦ decoded v
    ]
  ]

  -- The `switch` on the kind of a column.
  unfoldable pub set_column : Column → RelationColumn → Row V → Row V
  unfolding text_value binary_value insert
  set_column col def values =
      if col.data_type == b'n'
      then insert def.name null values
      else if col.data_type == b'u'
      then values
      else if col.data_type == b't'
      then insert def.name (text_value col.bytes def.oid) values
      else if col.data_type == b'b'
      then insert def.name (binary_value col.bytes def.oid) values
      else values

  -- The loop over the columns; `rel.Columns[i]` panics where the relation has fewer.
  unfoldable pub decode_columns {ℓ} :
      {E : Type ℓ} → List Column → List RelationColumn → Row V → Outcome E (Row V)
  unfolding set_column
  decode_columns [] defs values = ok values
  decode_columns (col ∷ cols) [] values = panic
  decode_columns (col ∷ cols) (def ∷ defs) values =
      decode_columns cols defs (set_column col def values)

  unfoldable pub decode_tuple {ℓ} :
      {E : Type ℓ} → Option (List Column) → RelationMessage → Outcome E (Option (Row V))
  unfolding decode_columns
  decode_tuple none rel = ok none
  decode_tuple {E} (some cols) rel = elim (decode_columns {E = E} cols rel.columns []) [
    | ok values ↦ ok (some values)
    | err e ↦ err e
    | panic ↦ panic
  ]
