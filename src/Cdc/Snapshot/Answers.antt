-- ===== src/Cdc/Snapshot/Answers.antt =====
-- What an answer of the database was, where it was used.
use waltap.Prelude.{
  ◌≡◌, ◌≢◌, refl, sym, ap, ◌∙◌, Option, none, some, List, [], ◌∷◌, ◌++◌, map, append-nil,
  append_assoc, Bytes, Outcome, ok, err, panic,
}
use waltap.Cdc.Snapshot.{
  Fetched, fetched, unread, Rows, SnapshotError, Asks, proceed, ◌>>=◌, given, named, ask_for,
  command, check, read_columns, some_columns,
}

pub outcome_value :
    {F : Type 0} {A : Type 0} (x y : A) → ◌≡◌ {A = Outcome F A} (ok x) (ok y) → x ≡ y
outcome_value x y e = cc

pub read_columns-fetched :
    {E : Type 0} (rows : List (Fetched E Bytes)) (columns all : List Bytes)
    → read_columns rows columns ≡ ok all
    → (names : List Bytes) × (rows ≡ map fetched names) × (all ≡ columns ++ names)
unfolding read_columns
read_columns-fetched [] columns all e =
    ([], refl, sym (append-nil columns ∙ outcome_value columns all e))
read_columns-fetched (unread f ∷ rows) columns all e = absurd cc
read_columns-fetched (fetched col ∷ rows) columns all e =
    let (names, r, a) = read_columns-fetched rows (columns ++ col ∷ []) all e in
    (col ∷ names, rw r, a ∙ append_assoc columns (col ∷ []) names)

module _ {H A E : Type 0} where
  pub err-ok :
      (h h' : H) (f : SnapshotError E) (a : A)
      → ◌≡◌ {A = H × Outcome (SnapshotError E) A} (h, err f) (h', ok a)
      → ⊥
  err-ok h h' f a e =
      let bad : ◌≡◌ {A = Outcome (SnapshotError E) A} (err f) (ok a) =
        ap (λ (x : H × Outcome (SnapshotError E) A). x.1) e in
      cc

  pub panic-ok :
      (h h' : H) (a : A) → ◌≡◌ {A = H × Outcome (SnapshotError E) A} (h, panic) (h', ok a) → ⊥
  panic-ok h h' a e =
      let bad : ◌≡◌ {A = Outcome (SnapshotError E) A} panic (ok a) =
        ap (λ (x : H × Outcome (SnapshotError E) A). x.1) e in
      cc

module _ {E : Type 0} where
  pub check-ok :
      (failure : E → SnapshotError E) (o : Option E) (u : Unit {0})
      → check failure o ≡ ok u
      → o ≡ none
  check-ok failure none u e = refl
  check-ok failure (some f) u e = cc

  pub some_columns-ok :
      (table : Bytes) (all columns : List Bytes)
      → some_columns {E = E} table all ≡ ok columns
      → (columns ≢ []) × (all ≡ columns)
  some_columns-ok table [] columns e = absurd cc
  some_columns-ok table (c ∷ all) columns e =
      let same = outcome_value (c ∷ all) columns e in (rw (sym same) (λ q. cc), same)

  pub rows_eq :
      {A : Type 0} (answer : Rows E A) (values : List A)
      → answer.rows ≡ map fetched values
      → answer.error ≡ none
      → answer ≡ record { rows = map fetched values; error = none }
  rows_eq answer values p q = rw (p, q)

module _ {H E A B : Type 0} where
  proceed-ok :
      (next : A → Asks H E B) (r : H × Outcome (SnapshotError E) A) (h' : H) (b : B)
      → proceed next r ≡ (h', ok b)
      → (h : H) × (a : A) × (r ≡ (h, ok a)) × (next a h ≡ (h', ok b))
  proceed-ok next (h, ok a) h' b e = (h, a, refl, e)
  proceed-ok next (h, err f) h' b e = absurd (err-ok h h' f b e)
  proceed-ok next (h, panic) h' b e = absurd (panic-ok h h' b e)

  -- A chain that returned did so at both links.
  pub chain-ok :
      (m : Asks H E A) (next : A → Asks H E B) (h h' : H) (b : B)
      → (m >>= next) h ≡ (h', ok b)
      → (h1 : H) × (a : A) × (m h ≡ (h1, ok a)) × (next a h1 ≡ (h', ok b))
  unfolding ◌>>=◌
  chain-ok m next h h' b e = proceed-ok next (m h) h' b e

module _ {H E A : Type 0} where
  pub given-ok :
      (o : Outcome (SnapshotError E) A) (h h' : H) (a : A)
      → given o h ≡ (h', ok a)
      → (h ≡ h') × (o ≡ ok a)
  given-ok o h h' a e = (
    ap (λ (x : H × Outcome (SnapshotError E) A). x.0) e,
    ap (λ (x : H × Outcome (SnapshotError E) A). x.1) e,
  )

  named-ok :
      (failure : E → SnapshotError E) (r : H × Fetched E A) (h' : H) (a : A)
      → named failure r ≡ (h', ok a)
      → r ≡ (h', fetched a)
  named-ok failure (h, fetched b) h' a e =
      let (same, value) = given-ok (ok b) h h' a e in rw (same, outcome_value b a value)
  named-ok failure (h, unread f) h' a e = absurd (err-ok h h' (failure f) a e)

  pub ask_for-ok :
      (failure : E → SnapshotError E) (question : H → H × Fetched E A) (h h' : H) (a : A)
      → ask_for failure question h ≡ (h', ok a)
      → question h ≡ (h', fetched a)
  ask_for-ok failure question h h' a e = named-ok failure (question h) h' a e

module _ {H E : Type 0} where
  pub command-ok :
      (failure : E → SnapshotError E) (question : H → H × Option E) (h h' : H) (u : Unit {0})
      → command failure question h ≡ (h', ok u)
      → question h ≡ (h', none)
  command-ok failure question h h' u e =
      let (same, done) = given-ok (check failure (question h).1) (question h).0 h' u e in
      let no_error = check-ok failure (question h).1 u done in
      ap (λ x. (x, (question h).1)) same ∙ ap (λ o. (h', o)) no_error
