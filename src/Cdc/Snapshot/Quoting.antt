-- ===== src/Cdc/Snapshot/Quoting.antt =====
-- A quoted identifier, as PostgreSQL's scanner reads it.
use waltap.Prelude.{
  ℕ, ◌≡◌, ◌≢◌, refl, true, false, inl, inr, Option, none, some, [], ◌∷◌, ◌++◌, append-nil,
  append_assoc, ==→eq, arith, ◌==◌, if◌then◌else◌, Bytes, codes, Bool-cases,
}
use waltap.Cdc.Snapshot.{double_quotes, quote_ident, select_all}

-- The rest of an identifier behind its opening quote: two quotes stand for one, and a single one
-- ends it.
unfoldable pub read_ident : Bytes → Bytes → Option (Bytes × Bytes)
read_ident [] name = none
read_ident (c ∷ []) name = if c == b'"' then some (name, []) else none
read_ident (c ∷ d ∷ s) name =
    let more = read_ident (d ∷ s) (name ++ c ∷ []) in
    let quoted = read_ident s (name ++ b'"' ∷ []) in
    if c == b'"' then (if d == b'"' then quoted else some (name, d ∷ s)) else more

-- What follows is not taken for a second quote.
abbrev pub Ends : Bytes → Type 0
Ends [] = Unit {0}
Ends (c ∷ s) = c ≢ b'"'

read_ident-end : (rest name : Bytes) → Ends rest → read_ident (b'"' ∷ rest) name ≡ some (name, rest)
unfolding read_ident
read_ident-end [] name h = refl
read_ident-end (c ∷ rest) name h = ground (arith, h)

read_ident-plain :
    (c : ℕ) (s name : Bytes)
    → (c == b'"') ≡ false
    → read_ident (c ∷ s) name ≡ read_ident s (name ++ c ∷ [])
unfolding read_ident
read_ident-plain c [] name e = rw (e, read_ident)
read_ident-plain c (d ∷ s) name e = rw (e, read_ident)

double_quotes-quote :
    (c : ℕ) (s rest : Bytes)
    → (c == b'"') ≡ true
    → double_quotes (c ∷ s) ++ rest ≡ b'"' ∷ b'"' ∷ (double_quotes s ++ rest)
unfolding double_quotes
double_quotes-quote c s rest e = rw (e, double_quotes)

double_quotes-plain :
    (c : ℕ) (s rest : Bytes)
    → (c == b'"') ≡ false
    → double_quotes (c ∷ s) ++ rest ≡ c ∷ (double_quotes s ++ rest)
unfolding double_quotes
double_quotes-plain c s rest e = rw (e, double_quotes)

read_ident-double_quotes :
    (name done rest : Bytes)
    → Ends rest
    → read_ident (double_quotes name ++ b'"' ∷ rest) done ≡ some (done ++ name, rest)
unfolding read_ident double_quotes
read_ident-double_quotes [] done rest h = rw (append-nil done) (read_ident-end rest done h)
read_ident-double_quotes (c ∷ name) done rest h = elim (Bool-cases (c == b'"')) [
  | inl e ↦
      let same : c ≡ b'"' = ==→eq c b'"' e in
      rw (double_quotes-quote c name (b'"' ∷ rest) e, same)
        (rw (append_assoc done (b'"' ∷ []) name) at
          (read_ident-double_quotes name (done ++ b'"' ∷ []) rest h))
  | inr e ↦
      rw
        (
          double_quotes-plain c name (b'"' ∷ rest) e,
          read_ident-plain c (double_quotes name ++ b'"' ∷ rest) done e,
        )
        (rw (append_assoc done (c ∷ []) name) at
          (read_ident-double_quotes name (done ++ c ∷ []) rest h))
]

-- Whatever the name of a table, the statement that the snapshot sends has behind SELECT * FROM one
-- quoted identifier, which PostgreSQL reads as that name, and nothing more.
pub select_all-read_ident :
    (table : Bytes)
    → (tail : Bytes) × (select_all table ≡ codes "SELECT * FROM " ++ b'"' ∷ tail)
      × (read_ident tail [] ≡ some (table, []))
unfolding select_all quote_ident
select_all-read_ident table =
    (double_quotes table ++ b'"' ∷ [], refl, read_ident-double_quotes table [] [] tt)
