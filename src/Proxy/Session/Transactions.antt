-- ===== src/Proxy/Session/Transactions.antt =====
-- How the session follows BEGIN and the statements that it takes for the end of a transaction.
use waltap.Prelude.{◌≡◌, ◌∙◌, ap, false, inl, inr, [], ◌∷◌, ◌++◌, append_assoc, Bytes, Bool-cases}
use waltap.Proxy.Classifier.{query_read, query_transaction, classify_query, first_token, is_one_of}
use waltap.Proxy.Session.{
  Backend, primary, replica, Env, Client, Session, begin_words, route_as, route_query, handle_query,
}
use waltap.Proxy.Session.Writes.{handle_query-queried, handle_query-in_transaction}
use waltap.Proxy.Session.Routing.{handle_queries, route_query_replica}

-- Transaction control goes to the primary, and clears the mark of a failure. It leaves the session
-- in a transaction exactly if the text begins, with no space in front, with BEGIN, START, begin
-- or start.
pub route_query_transaction :
    (s : Session) (sql : Bytes)
    → classify_query sql ≡ query_transaction
    → route_query s sql ≡ (
      record { in_transaction = is_one_of (first_token sql) begin_words; tx_failed = false },
      primary,
    )
unfolding route_query route_as
route_query_transaction s sql e = elim (Bool-cases (is_one_of (first_token sql) begin_words)) [
  | inl f ↦ rw (e, route_query, f)
  | inr f ↦ rw (e, route_query, f)
]

-- So a transaction control statement of any other spelling or kind (SAVEPOINT, RELEASE, ROLLBACK
-- TO, Begin, a BEGIN behind a space or a comment), also inside a transaction that stays open on
-- the server, lets the read that follows it reach the replica.
pub unpinned_by_control :
    (env : Env) (s : Session) (control sql : Bytes) (c : Client)
    → classify_query control ≡ query_transaction
    → is_one_of (first_token control) begin_words ≡ false
    → classify_query sql ≡ query_read
    → (handle_queries env s (control ∷ sql ∷ []) c).1.queried
      ≡ c.queried ++ (primary, control) ∷ (replica, sql) ∷ []
unfolding handle_queries
unpinned_by_control env s control sql c e f r =
    let route = route_query_transaction s control e in
    let s' = (handle_query env s control c).0 in
    let c' = (handle_query env s control c).1 in
    let left : s'.in_transaction ≡ false =
      handle_query-in_transaction env s control c
      ∙ ap (λ (q : Session × Backend). q.0.in_transaction) route
      ∙ f in
    let first : c'.queried ≡ c.queried ++ (primary, control) ∷ [] =
      handle_query-queried env s control c
      ∙ ap (λ (q : Session × Backend). c.queried ++ (q.1, control) ∷ []) route in
    handle_query-queried env s' sql c'
    ∙ ap (λ b. c'.queried ++ (b, sql) ∷ []) ((route_query_replica s' sql).1 (r, left))
    ∙ ap (λ l. l ++ (replica, sql) ∷ []) first
    ∙ append_assoc c.queried ((primary, control) ∷ []) ((replica, sql) ∷ [])
