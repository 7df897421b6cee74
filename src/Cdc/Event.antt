-- ===== src/Cdc/Event.antt =====
-- internal/cdc/event.go: the change event. A map of column values is an association list; a nil
-- map is `none`. Times are counted from Go's zero time, which is 0.
pub mod Lookups
pub mod Takes
use waltap.Prelude.{ℕ, Option, none, some, List, [], ◌∷◌, if◌then◌else◌, Bytes, bytes_eq}

-- A column's value: nil, a text, or what a codec of pgx decodes (of type `V`).
pub data Value (V : Type 0) : Type 0 where
  null : Value V
  text : Bytes → Value V
  decoded : V → Value V

abbrev pub Row : Type 0 → Type 0
Row V = List (Bytes × Value V)

module _ {V : Type 0} where
  unfoldable pub insert : Bytes → Value V → Row V → Row V
  unfolding bytes_eq
  insert k v [] = (k, v) ∷ []
  insert k v ((j, w) ∷ row) = if bytes_eq j k then (k, v) ∷ row else (j, w) ∷ insert k v row

  unfoldable pub lookup : Bytes → Row V → Option (Value V)
  unfolding bytes_eq
  lookup k [] = none
  lookup k ((j, w) ∷ row) = if bytes_eq j k then some w else lookup k row

pub record ChangeEvent (V : Type 0) : Type 0 where
  pub action : Bytes
  pub schema : Bytes
  pub table : Bytes
  pub new : Option (Row V)
  pub old : Option (Row V)
  pub timestamp : ℕ
  pub lsn : Bytes
  pub xid : ℕ

abbrev pub zero_time : ℕ
zero_time = 0
