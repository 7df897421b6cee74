-- ===== src/Sink/Kafka/Keys.antt =====
-- The key of a record, and which changes share a partition.
use mathlib.Core.Path.{subst}
use waltap.Prelude.{
  ap, inl, inr, Option-cases, ◌≡◌, ◌≢◌, sym, ◌∙◌, none, some, [], ◌∷◌, ◌++◌, Bytes, codes,
}
use mathlib.Core.List.{append_cancel_left}
use waltap.Cdc.Event.{Value, Row, ChangeEvent, lookup}
use waltap.Sink.Kafka.{Kafka, topic_of, key_row, build_key, fallback_key}

abbrev dot : Bytes
dot = b'.' ∷ []

module _ {V W E : Type 0} (kafka : Kafka V W E) where
  build_key-id :
      (event : ChangeEvent V) (row : Row V) (id : Value V)
      → key_row kafka event ≡ some row
      → lookup (codes "id") row ≡ some id
      → build_key kafka event ≡ kafka.marshal_id id
  unfolding build_key
  build_key-id event row id r l = rw (build_key, r, l)

  build_key-fallback :
      (event : ChangeEvent V) (row : Row V)
      → key_row kafka event ≡ some row
      → lookup (codes "id") row ≡ none
      → build_key kafka event ≡ fallback_key kafka event
  unfolding build_key
  build_key-fallback event row r l = rw (build_key, r, l)

  -- Two changes of a table whose rows, the new one where there is one and else the old one, have the
  -- same value in the column id go to the same topic under the same key, whatever their actions.
  pub build_key-same_id :
      (a b : ChangeEvent V) (row_a row_b : Row V) (id : Value V)
      → a.schema ≡ b.schema
      → a.table ≡ b.table
      → key_row kafka a ≡ some row_a
      → key_row kafka b ≡ some row_b
      → lookup (codes "id") row_a ≡ some id
      → lookup (codes "id") row_b ≡ some id
      → (topic_of kafka a ≡ topic_of kafka b) × (build_key kafka a ≡ build_key kafka b)
  unfolding topic_of
  build_key-same_id a b row_a row_b id s t ra rb la lb =
      (rw (s, t), build_key-id a row_a id ra la ∙ sym (build_key-id b row_b id rb lb))

  -- Two changes of a table without a column id have different keys if their positions in the log
  -- differ, also if they are changes of the same row.
  pub build_key-no_id :
      (a b : ChangeEvent V) (row_a row_b : Row V)
      → a.schema ≡ b.schema
      → a.table ≡ b.table
      → a.lsn ≢ b.lsn
      → key_row kafka a ≡ some row_a
      → key_row kafka b ≡ some row_b
      → lookup (codes "id") row_a ≡ none
      → lookup (codes "id") row_b ≡ none
      → build_key kafka a ≢ build_key kafka b
  build_key-no_id a b row_a row_b s t ne ra rb la lb e =
      let same = sym (build_key-fallback a row_a ra la) ∙ e ∙ build_key-fallback b row_b rb lb in
      let renamed : fallback_key kafka a ≡ b.schema ++ b'.' ∷ (b.table ++ b'.' ∷ a.lsn) =
        rw (s, t) in
      let from_schema = append_cancel_left b.schema _ _ (sym renamed ∙ same) in
      let from_table =
        append_cancel_left dot (b.table ++ b'.' ∷ a.lsn) (b.table ++ b'.' ∷ b.lsn) from_schema in
      let from_dot = append_cancel_left b.table (b'.' ∷ a.lsn) (b'.' ∷ b.lsn) from_table in
      ne (append_cancel_left dot a.lsn b.lsn from_dot)

-- The row that counts for the key: the new one, or the old one where there is no new one.
pub data CountsFor {V : Type 0} (event : ChangeEvent V) : Row V → Type 0 where
  the_new : {row : Row V} → event.new ≡ some row → CountsFor event row
  the_old : {row : Row V} → event.new ≡ none → event.old ≡ some row → CountsFor event row

only_new :
    {V : Type 0} (event : ChangeEvent V) (row : Row V)
    → event.new ≡ some row
    → (other : Row V) → CountsFor event other
    → other ≡ row
only_new event row e other (the_new f) = cc
only_new event row e other (the_old f g) = absurd (cc)

only_old :
    {V : Type 0} (event : ChangeEvent V) (row : Row V)
    → event.new ≡ none
    → event.old ≡ some row
    → (other : Row V) → CountsFor event other
    → other ≡ row
only_old event row e f other (the_new g) = absurd (cc)
only_old event row e f other (the_old g h) = cc

no_row :
    {V : Type 0} (event : ChangeEvent V) (row : Row V)
    → event.new ≡ none
    → event.old ≡ none
    → CountsFor event row
    → ⊥
no_row event row e f (the_new g) = cc
no_row event row e f (the_old g h) = cc

module _ {V W E : Type 0} (kafka : Kafka V W E) where
  -- The key of an event: that of the value in the column id, or else its table and its position.
  pub data IsKeyOf (event : ChangeEvent V) : Bytes → Type 0 where
    by_id :
        {row : Row V} {id : Value V}
        → CountsFor event row
        → lookup (codes "id") row ≡ some id
        → IsKeyOf event (kafka.marshal_id id)
    by_position :
        ((row : Row V) → CountsFor event row → lookup (codes "id") row ≡ none)
        → IsKeyOf event (event.schema ++ b'.' ∷ (event.table ++ b'.' ∷ event.lsn))

  IsKeyOf-row :
      (event : ChangeEvent V) (row : Row V)
      → CountsFor event row
      → ((other : Row V) → CountsFor event other → other ≡ row)
      → key_row kafka event ≡ some row
      → IsKeyOf event (build_key kafka event)
  IsKeyOf-row event row counts only e = elim (Option-cases (lookup (codes "id") row)) [
    | inl f ↦
        subst (IsKeyOf event) (sym (build_key-fallback kafka event row e f))
          (by_position (λ other c. ap (lookup (codes "id")) (only other c) ∙ f))
    | inr (id, f) ↦
        subst (IsKeyOf event) (sym (build_key-id kafka event row id e f)) (by_id counts f)
  ]

  build_key-no_row :
      (event : ChangeEvent V)
      → key_row kafka event ≡ none
      → build_key kafka event ≡ fallback_key kafka event
  unfolding build_key
  build_key-no_row event e = rw (build_key, e)

  pub build_key-IsKeyOf : (event : ChangeEvent V) → IsKeyOf event (build_key kafka event)
  build_key-IsKeyOf event = elim (Option-cases event.new) [
    | inr (row, e) ↦ IsKeyOf-row event row (the_new e) (only_new event row e) (rw e)
    | inl e ↦ elim (Option-cases event.old) [
      | inr (row, f) ↦ IsKeyOf-row event row (the_old e f) (only_old event row e f) (rw (e, f))
      | inl f ↦
          subst (IsKeyOf event) (sym (build_key-no_row event (rw (e, f))))
            (by_position (λ row c. absurd (no_row event row e f c)))
    ]
  ]
