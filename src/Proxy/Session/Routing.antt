-- ===== src/Proxy/Session/Routing.antt =====
-- Which backend the statements of a session reach.
use waltap.Prelude.{
  ◌≡◌, ◌≢◌, ◌↔◌, refl, sym, ◌∙◌, ap, true, false, List, [], ◌∷◌, ◌++◌, map, arith, append_assoc,
  append-nil, Bytes, All, All-append,
}
use waltap.Proxy.Classifier.{QueryType, query_read, query_write, query_transaction, classify_query}
use waltap.Proxy.Session.{
  Backend, primary, replica, Env, Client, Session, route_as, route_query, handle_query,
}
use waltap.Proxy.Session.Writes.{handle_query-queried, handle_query-in_transaction}

-- The statements of a client one after the other.
unfoldable pub handle_queries : Env → Session → List Bytes → Client → Session × Client
handle_queries env s [] c = (s, c)
handle_queries env s (sql ∷ sqls) c =
    let (s', c') = handle_query env s sql c in handle_queries env s' sqls c'

route_as_pinned :
    (t : QueryType) (s : Session) (sql : Bytes)
    → t ≢ query_transaction
    → s.in_transaction ≡ true
    → route_as t s sql ≡ (s, primary)
unfolding route_as
route_as_pinned query_transaction s sql h e = absurd (h refl)
route_as_pinned query_read s sql h e = rw e
route_as_pinned query_write s sql h e = refl

route_query_pinned :
    (s : Session) (sql : Bytes)
    → classify_query sql ≢ query_transaction
    → s.in_transaction ≡ true
    → route_query s sql ≡ (s, primary)
unfolding route_query
route_query_pinned s sql h e = route_as_pinned (classify_query sql) s sql h e

-- In a transaction every statement that is no transaction control goes to the primary, whatever
-- its class, once and in order, and the session stays in the transaction, also where statements
-- or writes to the client fail.
pub handle_queries_pinned :
    (env : Env) (s : Session) (sqls : List Bytes) (c : Client)
    → s.in_transaction ≡ true
    → All (λ sql. classify_query sql ≢ query_transaction) sqls
    → ((handle_queries env s sqls c).0.in_transaction ≡ true)
      × ((handle_queries env s sqls c).1.queried ≡ c.queried ++ map (λ sql. (primary, sql)) sqls)
unfolding handle_queries
handle_queries_pinned env s [] c e h = (e, sym (append-nil c.queried))
handle_queries_pinned env s (sql ∷ sqls) c e h =
    let route = route_query_pinned s sql h.0 e in
    let stays =
      handle_query-in_transaction env s sql c
      ∙ ap (λ (r : Session × Backend). r.0.in_transaction) route
      ∙ e in
    let rest =
      handle_queries_pinned env (handle_query env s sql c).0 sqls (handle_query env s sql c).1 stays
        h.1 in
    (
      rest.0,
      rest.1
          ∙ ap (λ l. l ++ map (λ q. (primary, q)) sqls)
              (handle_query-queried env s sql c
                ∙ ap (λ (r : Session × Backend). c.queried ++ (r.1, sql) ∷ []) route)
          ∙ append_assoc c.queried ((primary, sql) ∷ []) _,
    )

-- The replica gets reads only.
abbrev pub IsSafe : Backend × Bytes → Type 0
IsSafe (b, sql) = b ≡ replica → classify_query sql ≡ query_read

route_as-IsSafe :
    (t : QueryType) (s : Session) (sql : Bytes)
    → (route_as t s sql).1 ≡ replica
    → (t ≡ query_read) × (s.in_transaction ≡ false)
unfolding route_as
route_as-IsSafe query_transaction s sql e = ground arith
route_as-IsSafe query_read s sql e = ground arith
route_as-IsSafe query_write s sql e = ground arith

-- A statement goes to the replica exactly if it is a read and no transaction is open.
pub route_query_replica :
    (s : Session) (sql : Bytes)
    → ((route_query s sql).1 ≡ replica)
      ↔ ((classify_query sql ≡ query_read) × (s.in_transaction ≡ false))
unfolding route_query route_as
route_query_replica s sql =
    (route_as-IsSafe (classify_query sql) s sql, λ h. rw (h.0, route_query, h.1))

pub handle_query-IsSafe :
    (env : Env) (s : Session) (sql : Bytes) (c : Client)
    → All IsSafe c.queried
    → All IsSafe (handle_query env s sql c).1.queried
handle_query-IsSafe env s sql c h =
    rw (handle_query-queried env s sql c)
      (All-append IsSafe c.queried _ h ((λ e. ((route_query_replica s sql).0 e).0), tt))
