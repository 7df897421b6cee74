-- ===== src/Proxy/Classifier.antt =====
-- internal/proxy/classifier.go: how a SQL text is routed by its first keyword.
pub mod Strip
pub mod Comments
pub mod Blocks
use mathlib.Core.Option.{get_or}
use waltap.Prelude.{
  ℕ, zero, suc, ◌+◌, ◌-◌, Bool, true, false, ◌&&◌, ◌||◌, Option, none, some, List, [], ◌∷◌, length,
  drop, ◌==◌, if◌then◌else◌, Bytes, codes, bytes_eq, trim_space, to_upper, has_prefix, contains,
  index_byte, ◌≡◌, refl,
}

pub data QueryType : Type 0 where
  query_read query_write query_transaction : QueryType

-- `String`; a number beside the three is none of the model.
abbrev pub query_type_string : QueryType → Bytes
query_type_string query_read = codes "READ"
query_type_string query_write = codes "WRITE"
query_type_string query_transaction = codes "TXN"

abbrev pub is_delimiter : ℕ → Bool
is_delimiter c = c == b' ' || c == b'\t' || c == b'\n' || c == b'\r' || c == b'('

unfoldable pub first_token : Bytes → Bytes
first_token [] = []
first_token (c ∷ s) = if is_delimiter c then [] else c ∷ first_token s

abbrev pub opens : ℕ → ℕ → Bool
opens c d = c == b'/' && d == b'*'

abbrev pub closes : ℕ → ℕ → Bool
closes c d = c == b'*' && d == b'/'

-- The loop over a block comment: `sql[i:]` at its end, from the text and the depth at `i`.
unfoldable pub skip_block : ℕ → Bytes → Bytes
skip_block depth [] = []
skip_block depth (c ∷ []) = c ∷ []
skip_block depth (c ∷ d ∷ s) = elim (opens c d) [
  | true ↦ skip_block (depth + 1) s
  | false ↦ elim (closes c d) [
    | true ↦ elim (depth - 1 == 0) [ true ↦ s | false ↦ skip_block (depth - 1) s ]
    | false ↦ skip_block depth (d ∷ s)
  ]
]

-- One round of the loop of `stripLeadingComments`, on the trimmed text; `again` is the next round.
unfoldable pub strip_round : (Bytes → Option Bytes) → Bytes → Option Bytes
strip_round again sql = elim (has_prefix sql (b'-' ∷ b'-' ∷ [])) [
  | true ↦ elim (index_byte sql b'\n') [ none ↦ some [] | some idx ↦ again (drop (suc idx) sql) ]
  | false ↦ elim (has_prefix sql (b'/' ∷ b'*' ∷ [])) [
    | true ↦ again (skip_block 0 sql)
    | false ↦ some sql
  ]
]

-- The loop on fuel; `none` means that the fuel ran out.
unfoldable pub strip_loop : ℕ → Bytes → Option Bytes
unfolding strip_round
strip_loop zero sql = none
strip_loop (suc fuel) sql = strip_round (strip_loop fuel) (trim_space sql)

unfoldable pub strip_leading_comments : Bytes → Bytes
strip_leading_comments sql = get_or (strip_loop (suc (length sql)) sql) []

unfoldable pub is_one_of : Bytes → List Bytes → Bool
unfolding bytes_eq
is_one_of w [] = false
is_one_of w (v ∷ vs) = bytes_eq w v || is_one_of w vs

abbrev pub read_words : List Bytes
read_words =
    codes "SELECT"
    ∷ codes "SHOW"
    ∷ codes "EXPLAIN"
    ∷ codes "SET"
    ∷ codes "RESET"
    ∷ codes "DISCARD"
    ∷ []

abbrev pub transaction_words : List Bytes
transaction_words =
    codes "BEGIN"
    ∷ codes "START"
    ∷ codes "COMMIT"
    ∷ codes "END"
    ∷ codes "ROLLBACK"
    ∷ codes "SAVEPOINT"
    ∷ codes "RELEASE"
    ∷ []

-- The `switch` on the first word, for a text that is not empty.
unfoldable pub classify_word : Bytes → Bytes → QueryType
classify_word first_word sql =
    if is_one_of first_word read_words
    then query_read
    else if is_one_of first_word transaction_words
    then query_transaction
    else if bytes_eq first_word (codes "COPY") && contains (to_upper sql) (codes " TO ")
    then query_read
    else query_write

-- `ClassifyQuery` behind the two trims and the comments.
unfoldable pub classify_stripped : Bytes → QueryType
classify_stripped [] = query_read
classify_stripped (c ∷ s) = classify_word (to_upper (first_token (c ∷ s))) (c ∷ s)

unfoldable pub classify_query : Bytes → QueryType
classify_query sql = classify_stripped (trim_space (strip_leading_comments (trim_space sql)))

test_nested : classify_query (codes " /* a /* b */ c */ -- x\n select 1") ≡ query_read
unfolding classify_query strip_leading_comments strip_loop skip_block trim_space has_prefix
    index_byte to_upper first_token classify_stripped classify_word is_one_of bytes_eq contains
test_nested = refl
