-- ===== src/Proxy/Tests.antt =====
-- internal/proxy: the theorems at concrete inputs, and runs of the code.
use waltap.Prelude.{
  ◌==◌, if◌then◌else◌, ◌≡◌, ◌≢◌, refl, true, false, none, some, List, [], ◌∷◌, ◌++◌, map, arith,
  All, Bytes, codes, ok, bytes_eq, contains, to_upper, has_prefix, index_byte, trim_space,
  trim_right,
}
use waltap.Proxy.Classifier.{
  query_read, query_write, query_transaction, classify_query, first_token, is_one_of, strip_loop,
  strip_leading_comments, skip_block, classify_stripped, classify_word,
}
use waltap.Proxy.Classifier.Strip.{strip_loop-total}
use waltap.Proxy.Classifier.Comments.{classify-trim_space}
use waltap.Proxy.Classifier.Blocks.{
  block_comment, IsBody, blank, byte, nest, slash, star, classify-block_comment,
}
use waltap.Proxy.Wire.{put_columns, extract_sql}
use waltap.Proxy.Wire.RoundTrip.{
  read_columns, read_columns-put_columns, extract_sql-message, query_message, parse_message,
}
use waltap.Proxy.Startup.{parse_startup_params}
use waltap.Proxy.Startup.Entries.{entries, last_or, parse_startup_params-message}
use waltap.Proxy.Session.{
  primary, replica, query_error, Env, Client, Session, begin_words, route_query, handle_query, rows,
}
use waltap.Proxy.Session.Routing.{handle_queries, handle_queries_pinned, IsSafe}
use waltap.Proxy.Session.Transactions.{unpinned_by_control}
use waltap.Proxy.Session.Answers.{answer, handle_query-sent}
use waltap.Proxy.Session.Whole.{select_with, whole_text_to_replica}
use waltap.Proxy.Connection.{handle_client, loop_unfinished}
use waltap.Proxy.Connection.Framed.{IsReplied, handle_client-IsReplied}
use waltap.Proxy.Connection.Safety.{handle_client-EndsSafely}

test_nested_comment : classify_query (codes " /* a /* b */ c */ -- x\n select 1") ≡ query_read
unfolding classify_query strip_leading_comments strip_loop skip_block trim_space has_prefix
    index_byte to_upper first_token classify_stripped classify_word is_one_of bytes_eq contains
test_nested_comment = refl

-- An unended block comment leaves its last byte behind.
test_unended_comment : strip_leading_comments (codes "/* x") ≡ codes "x"
unfolding strip_leading_comments strip_loop skip_block trim_space has_prefix index_byte
test_unended_comment = refl

abbrev savepoint : Bytes
savepoint = codes "SAVEPOINT s"

abbrev select : Bytes
select = codes "SELECT 1"

abbrev insert : Bytes
insert = codes "insert into t values (1)"

abbrev in_block : Session
in_block = record { in_transaction = true; tx_failed = false }

abbrev idle : Session
idle = record { in_transaction = false; tx_failed = false }

abbrev new_client : Client
new_client = record { sent = []; writes = 0; queried = [] }

-- Every query fails, and every write succeeds.
abbrev failing : Env
failing = record {
  write_error = λ n. none;
  query = λ n pool sql. query_error (codes "no");
  cancelled = λ n. false;
}

classify_savepoint : classify_query savepoint ≡ query_transaction
unfolding classify_query strip_leading_comments strip_loop skip_block trim_space has_prefix
    index_byte to_upper first_token classify_stripped classify_word is_one_of bytes_eq contains
classify_savepoint = refl

classify_select : classify_query select ≡ query_read
unfolding classify_query strip_leading_comments strip_loop skip_block trim_space has_prefix
    index_byte to_upper first_token classify_stripped classify_word is_one_of bytes_eq contains
classify_select = refl

classify_insert : classify_query insert ≡ query_write
unfolding classify_query strip_leading_comments strip_loop skip_block trim_space has_prefix
    index_byte to_upper first_token classify_stripped classify_word is_one_of bytes_eq contains
classify_insert = refl

savepoint_no_begin : is_one_of (first_token savepoint) begin_words ≡ false
unfolding is_one_of first_token
savepoint_no_begin = refl

strip_loop-total_example : (r : Bytes) × (strip_loop 20 (codes "/* /* a */ SELECT") ≡ some r)
strip_loop-total_example = strip_loop-total 20 (codes "/* /* a */ SELECT") (omega arith)

classify-trim_space_example : classify_query (codes "  SELECT 1\n") ≡ classify_query select
unfolding trim_space
classify-trim_space_example = classify-trim_space (codes "  SELECT 1\n") select refl

abbrev body_bytes : Bytes
body_bytes = b'/' ∷ b'a' ∷ block_comment (b'b' ∷ []) (b'*' ∷ b'c' ∷ [])

body_bytes-IsBody : IsBody body_bytes
body_bytes-IsBody = slash (omega arith) (
    byte (omega arith) (omega arith) (
      nest (byte (omega arith) (omega arith) blank)
        (star (omega arith) (byte (omega arith) (omega arith) blank)) refl))

classify-block_comment_example :
    classify_query (block_comment body_bytes insert) ≡ classify_query insert
classify-block_comment_example = classify-block_comment body_bytes insert body_bytes-IsBody

read_columns-put_columns_example :
    read_columns 2 (put_columns (some (codes "1") ∷ none ∷ []))
    ≡ some (some (codes "1") ∷ none ∷ [])
read_columns-put_columns_example =
    read_columns-put_columns (some (codes "1") ∷ none ∷ []) (omega arith, (tt, tt))

extract_sql-message_example :
    (extract_sql (query_message select) ≡ select)
    × (extract_sql (parse_message (codes "p") select (0 ∷ 0 ∷ [])) ≡ select)
extract_sql-message_example =
    extract_sql-message (codes "p") select (0 ∷ 0 ∷ []) (omega arith) (omega arith)

abbrev header : Bytes
header = 0 ∷ 0 ∷ 0 ∷ 40 ∷ 0 ∷ 3 ∷ 0 ∷ 0 ∷ []

abbrev lab : List (Bytes × Bytes)
lab =
    (codes "user", codes "x")
    ∷ (codes "user", codes "lab")
    ∷ (codes "database", codes "wallab")
    ∷ []

parse_startup_params-message_example :
    parse_startup_params (header ++ entries lab (0 ∷ []))
    ≡ ok (record {
      user = last_or (codes "user") [] lab;
      database = last_or (codes "database") [] lab;
    })
parse_startup_params-message_example = parse_startup_params-message header lab refl (omega arith)

test_last_or : last_or (codes "user") [] lab ≡ codes "lab"
unfolding bytes_eq
test_last_or = refl

handle_queries_pinned_example :
    ((handle_queries failing in_block (select ∷ insert ∷ []) new_client).0.in_transaction ≡ true)
    × ((handle_queries failing in_block (select ∷ insert ∷ []) new_client).1.queried
        ≡ [] ++ map (λ sql. (primary, sql)) (select ∷ insert ∷ []))
handle_queries_pinned_example =
    handle_queries_pinned failing in_block (select ∷ insert ∷ []) new_client refl
      (rw classify_select (λ q. cc), (rw classify_insert (λ q. cc), tt))

unpinned_by_control_example :
    (handle_queries failing in_block (savepoint ∷ select ∷ []) new_client).1.queried
    ≡ [] ++ (primary, savepoint) ∷ (replica, select) ∷ []
unpinned_by_control_example =
    unpinned_by_control failing in_block savepoint select new_client classify_savepoint
      savepoint_no_begin classify_select

-- A result of no fields in a transaction, whose tag is not known.
abbrev inserting : Env
inserting = record failing {
  query = λ n pool sql. rows [] [] none (λ closed. if closed then codes "INSERT 0 1" else []);
}

handle_query-sent_example :
    (handle_query inserting in_block insert new_client).1.sent
    ≡ []
      ++ answer
          (route_query in_block insert).0
          (rows [] [] none (λ closed. if closed then codes "INSERT 0 1" else []))
handle_query-sent_example = handle_query-sent inserting (λ n. refl) in_block insert new_client

-- A request for SSL, a startup message, a statement and the end.
abbrev dialogue : Bytes
dialogue =
    (0 ∷ 0 ∷ 0 ∷ 8 ∷ 4 ∷ 210 ∷ 22 ∷ 47 ∷ [])
    ++ (0 ∷ 0 ∷ 0 ∷ 8 ∷ 0 ∷ 3 ∷ 0 ∷ 0 ∷ b'Q' ∷ 0 ∷ 0 ∷ 0 ∷ 13 ∷ [])
    ++ (codes "SELECT 1" ++ 0 ∷ b'X' ∷ 0 ∷ 0 ∷ 0 ∷ 4 ∷ [])

handle_client-EndsSafely_example :
    ((handle_client failing dialogue new_client).reason ≢ loop_unfinished)
    × All IsSafe (handle_client failing dialogue new_client).client.queried
handle_client-EndsSafely_example = handle_client-EndsSafely failing dialogue new_client tt

abbrev two_statements : Bytes
two_statements = codes "1; delete from t"

trims : trim_right two_statements ≡ two_statements
unfolding trim_right
trims = refl

whole_text_to_replica_example :
    ((handle_query failing idle (select_with two_statements) new_client).1.queried
      ≡ [] ++ (replica, select_with two_statements) ∷ [])
    × ((handle_query failing idle (select_with two_statements) new_client).0.in_transaction ≡ false)
whole_text_to_replica_example =
    whole_text_to_replica failing idle two_statements new_client refl trims

-- The third write breaks off behind two bytes.
abbrev broken : Env
broken = record failing { write_error = λ n. if n == 2 then some (2, codes "gone") else none }

handle_client-IsReplied_example :
    IsReplied broken (handle_client broken dialogue new_client).client.sent
handle_client-IsReplied_example = handle_client-IsReplied broken dialogue new_client refl refl
