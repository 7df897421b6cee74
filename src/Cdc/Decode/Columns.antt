-- ===== src/Cdc/Decode/Columns.antt =====
-- What a decoded tuple holds for each column, and when decoding panics.
use mathlib.Core.Path.{subst}
use waltap.Prelude.{
  ℕ, true, false, ◌⊎◌, inl, inr, ◌++◌, codes, Bool-cases, Option-cases, ◌≤◌, ◌<◌, ◌≡◌, ◌≢◌, refl,
  sym, ◌∙◌, ap, Option, none, some, List, [], ◌∷◌, arith, ◌==◌, if◌then◌else◌, Bytes, length, All,
  ok, panic,
}
use waltap.Cdc.Event.{Value, null, text, decoded, Row, lookup}
use waltap.Cdc.Event.Lookups.{lookup-insert_self, lookup-insert_ne}
use waltap.Cdc.Decode.{
  Column, RelationColumn, RelationMessage, Codecs, Format, text_format, binary_format, decimal,
  text_value, binary_value, set_column, decode_columns, decode_tuple,
}

module _ {V : Type 0} (codecs : Codecs V) where
  abbrev column_value : Column → RelationColumn → Option (Value V)
  column_value col def =
      if col.data_type == b'n'
      then some null
      else if col.data_type == b'u'
      then none
      else if col.data_type == b't'
      then some (text_value codecs col.bytes def.oid)
      else if col.data_type == b'b'
      then some (binary_value codecs col.bytes def.oid)
      else none

  -- A codec of the type decodes the bytes in this format.
  abbrev pub IsDecoded : Format → Bytes → ℕ → V → Type 0
  IsDecoded format bytes oid v =
      (codec : (Format → Bytes → Option V)) × (codecs oid ≡ some codec)
      × (codec format bytes ≡ some v)

  -- The type has no codec, or it fails on the bytes in this format.
  abbrev pub IsUndecodable : Format → Bytes → ℕ → Type 0
  IsUndecodable format bytes oid =
      (codecs oid ≡ none)
      ⊎ ((codec : (Format → Bytes → Option V)) × (codecs oid ≡ some codec)
          × (codec format bytes ≡ none))

  -- What a column means, by its kind.
  pub data Means (col : Column) (def : RelationColumn) : Option (Value V) → Type 0 where
    means_null : col.data_type ≡ b'n' → Means col def (some null)
    means_unchanged : col.data_type ≡ b'u' → Means col def none
    means_text :
        {v : V}
        → col.data_type ≡ b't'
        → IsDecoded text_format col.bytes def.oid v
        → Means col def (some (decoded v))
    means_raw :
        col.data_type ≡ b't'
        → IsUndecodable text_format col.bytes def.oid
        → Means col def (some (text col.bytes))
    means_binary :
        {v : V}
        → col.data_type ≡ b'b'
        → IsDecoded binary_format col.bytes def.oid v
        → Means col def (some (decoded v))
    means_note :
        (count : Bytes)
        → col.data_type ≡ b'b'
        → IsUndecodable binary_format col.bytes def.oid
        → Means col def (some (text (codes "(binary " ++ (count ++ codes " bytes)"))))
    means_nothing :
        col.data_type ≢ b'n'
        → col.data_type ≢ b'u'
        → col.data_type ≢ b't'
        → col.data_type ≢ b'b'
        → Means col def none

  text_value-Means :
      (col : Column) (def : RelationColumn)
      → col.data_type ≡ b't'
      → Means col def (some (text_value codecs col.bytes def.oid))
  unfolding text_value
  text_value-Means col def k = elim (Option-cases (codecs def.oid)) [
    | inl e ↦ rw (text_value, e) (means_raw k (inl e))
    | inr (codec, e) ↦ elim (Option-cases (codec text_format col.bytes)) [
      | inl f ↦ rw (text_value, e, f) (means_raw k (inr (codec, e, f)))
      | inr (v, f) ↦ rw (text_value, e, f) (means_text k (codec, e, f))
    ]
  ]

  binary_value-Means :
      (col : Column) (def : RelationColumn)
      → col.data_type ≡ b'b'
      → Means col def (some (binary_value codecs col.bytes def.oid))
  unfolding binary_value
  binary_value-Means col def k = elim (Option-cases (codecs def.oid)) [
    | inl e ↦ rw (binary_value, e) (means_note (decimal (length col.bytes)) k (inl e))
    | inr (codec, e) ↦ elim (Option-cases (codec binary_format col.bytes)) [
      | inl f ↦
          rw (binary_value, e, f) (means_note (decimal (length col.bytes)) k (inr (codec, e, f)))
      | inr (v, f) ↦ rw (binary_value, e, f) (means_binary k (codec, e, f))
    ]
  ]

  is_kind : (k n : ℕ) → (k == n) ≡ true → k ≡ n
  is_kind k n e = ground (arith, e)

  not_kind : (k n : ℕ) → (k == n) ≡ false → k ≢ n
  not_kind k n e = ground (arith, e)

  column_value-Means : (col : Column) (def : RelationColumn) → Means col def (column_value col def)
  column_value-Means col def = elim (Bool-cases (col.data_type == b'n')) [
    | inl n ↦ rw n (means_null (is_kind _ b'n' n))
    | inr n ↦ elim (Bool-cases (col.data_type == b'u')) [
      | inl u ↦ rw (n, u) (means_unchanged (is_kind _ b'u' u))
      | inr u ↦ elim (Bool-cases (col.data_type == b't')) [
        | inl t ↦ rw (n, u, t) (text_value-Means col def (is_kind _ b't' t))
        | inr t ↦ elim (Bool-cases (col.data_type == b'b')) [
          | inl b ↦ rw (n, u, t, b) (binary_value-Means col def (is_kind _ b'b' b))
          | inr b ↦
              rw (n, u, t, b)
                (means_nothing (not_kind _ b'n' n) (not_kind _ b'u' u) (not_kind _ b't' t)
                  (not_kind _ b'b' b))
        ]
      ]
    ]
  ]

  set_column-lookup_ne :
      (col : Column) (def : RelationColumn) (row : Row V) (k : Bytes)
      → def.name ≢ k
      → lookup k (set_column codecs col def row) ≡ lookup k row
  unfolding set_column
  set_column-lookup_ne col def row k ne = ground (
    arith,
    lookup-insert_ne def.name k null row ne,
    lookup-insert_ne def.name k (text_value codecs col.bytes def.oid) row ne,
    lookup-insert_ne def.name k (binary_value codecs col.bytes def.oid) row ne,
  )

  set_column-lookup_self :
      (col : Column) (def : RelationColumn) (row : Row V)
      → lookup def.name row ≡ none
      → lookup def.name (set_column codecs col def row) ≡ column_value col def
  unfolding set_column
  set_column-lookup_self col def row fresh = ground (
    arith,
    lookup-insert_self def.name null row,
    lookup-insert_self def.name (text_value codecs col.bytes def.oid) row,
    lookup-insert_self def.name (binary_value codecs col.bytes def.oid) row,
  )

  -- Every column has its meaning in the row, under its name.
  abbrev pub Holds : List Column → List RelationColumn → Row V → Type 0
  Holds [] defs row = Unit {0}
  Holds (col ∷ cols) [] row = ⊥
  Holds (col ∷ cols) (def ∷ defs) row = Means col def (lookup def.name row) × Holds cols defs row

  -- The names of a relation's columns differ.
  abbrev pub Distinct : List RelationColumn → Type 0
  Distinct [] = Unit {0}
  Distinct (def ∷ defs) = All (λ (d : RelationColumn). d.name ≢ def.name) defs × Distinct defs

  abbrev Fresh : Row V → List RelationColumn → Type 0
  Fresh row = All (λ (d : RelationColumn). lookup d.name row ≡ none)

  set_column-Fresh :
      (col : Column) (def : RelationColumn) (row : Row V) (defs : List RelationColumn)
      → All (λ (d : RelationColumn). d.name ≢ def.name) defs
      → Fresh row defs
      → Fresh (set_column codecs col def row) defs
  set_column-Fresh col def row [] h f = tt
  set_column-Fresh col def row (d ∷ defs) h f = (
    set_column-lookup_ne col def row d.name (λ e. h.0 (sym e)) ∙ f.0,
    set_column-Fresh col def row defs h.1 f.1,
  )

  decode_columns-keeps :
      (k : Bytes) (cols : List Column) (defs : List RelationColumn) (row values : Row V)
      → All (λ (d : RelationColumn). d.name ≢ k) defs
      → decode_columns codecs {E = ⊥} cols defs row ≡ ok values
      → lookup k values ≡ lookup k row
  unfolding decode_columns
  decode_columns-keeps k [] defs row values h e =
      let same : row ≡ values = cc in ap (lookup k) (sym same)
  decode_columns-keeps k (col ∷ cols) [] row values h e = absurd (cc)
  decode_columns-keeps k (col ∷ cols) (def ∷ defs) row values h e =
      decode_columns-keeps k cols defs (set_column codecs col def row) values h.1 e
      ∙ set_column-lookup_ne col def row k h.0

  decode_columns-Holds :
      (cols : List Column) (defs : List RelationColumn) (row : Row V)
      → length cols ≤ length defs
      → Distinct defs
      → Fresh row defs
      → (values : Row V) × (decode_columns codecs {E = ⊥} cols defs row ≡ ok values)
        × Holds cols defs values
  unfolding decode_columns
  decode_columns-Holds [] defs row le d f = (row, refl, tt)
  decode_columns-Holds (col ∷ cols) [] row le d f = absurd (omega arith)
  decode_columns-Holds (col ∷ cols) (def ∷ defs) row le d f =
      let (values, e, h) =
        decode_columns-Holds cols defs (set_column codecs col def row) (omega arith) d.1
          (set_column-Fresh col def row defs d.0 f.1) in
      (
        values,
        e,
        (
          subst (Means col def)
              (sym (
                decode_columns-keeps def.name cols defs (set_column codecs col def row) values d.0 e
                ∙ set_column-lookup_self col def row f.0))
              (column_value-Means col def),
          h,
        ),
      )

  empty-Fresh : (defs : List RelationColumn) → Fresh [] defs
  unfolding lookup
  empty-Fresh [] = tt
  empty-Fresh (d ∷ defs) = (refl, empty-Fresh defs)

  -- A tuple with no more columns than its relation, whose names differ, is decoded, and under the
  -- name of each column stands what the column means: nil for 'n', nothing for 'u' or an unknown
  -- kind, what the type's codec makes of the bytes as a text for 't', or else these bytes as a text,
  -- and what it makes of them as binary for 'b', or else a note that begins with (binary.
  pub decode_tuple-Holds :
      (cols : List Column) (rel : RelationMessage)
      → length cols ≤ length rel.columns
      → Distinct rel.columns
      → (values : Row V) × (decode_tuple codecs {E = ⊥} (some cols) rel ≡ ok (some values))
        × Holds cols rel.columns values
  unfolding decode_tuple
  decode_tuple-Holds cols rel le d =
      let (values, e, h) =
        decode_columns-Holds cols rel.columns [] le d (empty-Fresh rel.columns) in
      (values, rw (e, decode_tuple), h)

  decode_columns-panics :
      (cols : List Column) (defs : List RelationColumn) (row : Row V)
      → length defs < length cols
      → decode_columns codecs {E = ⊥} cols defs row ≡ panic
  unfolding decode_columns
  decode_columns-panics [] defs row lt = absurd (omega arith)
  decode_columns-panics (col ∷ cols) [] row lt = refl
  decode_columns-panics (col ∷ cols) (def ∷ defs) row lt =
      decode_columns-panics cols defs (set_column codecs col def row) (omega arith)

  -- A tuple with more columns than the cached relation makes the decoder panic.
  pub decode_tuple-panics :
      (cols : List Column) (rel : RelationMessage)
      → length rel.columns < length cols
      → decode_tuple codecs {E = ⊥} (some cols) rel ≡ panic
  unfolding decode_tuple
  decode_tuple-panics cols rel lt = rw (decode_columns-panics cols rel.columns [] lt, decode_tuple)
