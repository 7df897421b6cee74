-- ===== src/Cdc/Event/Lookups.antt =====
-- What a row holds behind a write to it.
use waltap.Prelude.{
  ◌≡◌, ◌≢◌, inl, inr, some, [], ◌∷◌, arith, Bytes, bytes_eq, bytes_eq_refl, bytes_eq-false,
  eq_of_bytes_eq, Bool-cases,
}
use waltap.Cdc.Event.{Value, Row, insert, lookup}

module _ {V : Type 0} where
  pub lookup-insert_self :
      (k : Bytes) (v : Value V) (row : Row V) → lookup k (insert k v row) ≡ some v
  unfolding lookup insert
  lookup-insert_self k v [] = rw (bytes_eq_refl k)
  lookup-insert_self k v ((j, w) ∷ row) = elim (Bool-cases (bytes_eq j k)) [
    | inl e ↦ rw (e, insert, lookup, bytes_eq_refl k)
    | inr e ↦ rw (e, insert, lookup, e) (lookup-insert_self k v row)
  ]

  pub lookup-insert_ne :
      (k j : Bytes) (v : Value V) (row : Row V) → k ≢ j → lookup j (insert k v row) ≡ lookup j row
  unfolding lookup insert
  lookup-insert_ne k j v [] ne = rw (bytes_eq-false k j ne)
  lookup-insert_ne k j v ((i, w) ∷ row) ne = elim (Bool-cases (bytes_eq i k)) [
    | inl e ↦
        let same = eq_of_bytes_eq i k e in
        rw (e, insert, lookup, bytes_eq-false k j ne, bytes_eq-false i j (rw same ne))
    | inr e ↦ ground (arith, lookup-insert_ne k j v row ne)
  ]
