-- ===== src/Proxy/Session/Writes.antt =====
-- What the writes of a session leave alone, and where a statement goes.
use waltap.Prelude.{ℕ, ◌≡◌, refl, ◌∙◌, Option, none, some, List, [], ◌∷◌, ◌++◌, map, arith, Bytes}
use waltap.Proxy.Wire.{
  FieldDescription, row_description, data_row, command_complete, ready_for_query, error_response,
}
use waltap.Proxy.Session.{
  QueryResult, query_error, rows, Env, Client, Io, follow, fail_with, ◌>>◌, Session, route_query,
  fail_session, send, send_all, relay_rows, tag_or_default, reads_rows, relay, execute_and_relay,
  send_failure, answered, handle_query,
}

-- No query reaches a backend.
abbrev pub Quiet : Io → Type 0
Quiet m = (c : Client) → (m c).0.queried ≡ c.queried

module _ (env : Env) where
  pub send-Quiet : (msg : Bytes) → Quiet (send env msg)
  unfolding send
  send-Quiet msg c = ground arith

  follow-queried :
      (k : Io) (r : Client × Option Bytes) → Quiet k → (follow k r).0.queried ≡ r.0.queried
  follow-queried k (c, none) h = h c
  follow-queried k (c, some e) h = refl

  pub >>-Quiet : (m k : Io) → Quiet m → Quiet k → Quiet (m >> k)
  >>-Quiet m k h h' c = follow-queried k (m c) h' ∙ h c

  pub send_all-Quiet : (msgs : List Bytes) → Quiet (send_all env msgs)
  unfolding send_all
  send_all-Quiet [] c = refl
  send_all-Quiet (msg ∷ msgs) c =
      follow-queried (send_all env msgs) _ (send_all-Quiet msgs) ∙ send-Quiet msg c

  relay_rows-Quiet :
      (fs : List FieldDescription) (vs : List (List (Option Bytes))) (e : Option Bytes)
      → Quiet (relay_rows env fs vs e)
  unfolding relay_rows
  relay_rows-Quiet [] vs e = λ c. refl
  relay_rows-Quiet (f ∷ fs) vs e =
      >>-Quiet (send env (row_description (f ∷ fs))) (send_all env (map data_row vs) >> fail_with e)
        (send-Quiet (row_description (f ∷ fs)))
        (>>-Quiet (send_all env (map data_row vs)) (fail_with e) (send_all-Quiet (map data_row vs))
          (λ d. refl))

  relay-Quiet : (status : ℕ) (r : QueryResult) → Quiet (relay env status r)
  unfolding relay
  relay-Quiet status (query_error e) = λ c. refl
  relay-Quiet status (rows fs vs e tag) =
      let last = send env (ready_for_query status) in
      let complete = send env (command_complete (tag_or_default (tag (reads_rows fs)))) in
      >>-Quiet (relay_rows env fs vs e) (complete >> last) (relay_rows-Quiet fs vs e)
        (>>-Quiet complete last (send-Quiet _) (send-Quiet _))

  pub send_failure-queried :
      (message : Bytes) (status : ℕ) (c : Client)
      → (send_failure env message status c).queried ≡ c.queried
  unfolding send_failure
  send_failure-queried message status c =
      send-Quiet (ready_for_query status) _ ∙ send-Quiet (error_response message) c

  answered-queried :
      (s : Session) (r : Client × Option Bytes) → (answered env s r).1.queried ≡ r.0.queried
  answered-queried s (c, none) = refl
  answered-queried s (c, some e) = send_failure-queried e _ c

  fail_session-in_transaction : (s : Session) → (fail_session s).in_transaction ≡ s.in_transaction
  fail_session-in_transaction s = ground arith

  answered-in_transaction :
      (s : Session) (r : Client × Option Bytes)
      → (answered env s r).0.in_transaction ≡ s.in_transaction
  answered-in_transaction s (c, none) = refl
  answered-in_transaction s (c, some e) = fail_session-in_transaction s

  -- A statement reaches one backend once: the one that the routing names.
  pub handle_query-queried :
      (s : Session) (sql : Bytes) (c : Client)
      → (handle_query env s sql c).1.queried ≡ c.queried ++ ((route_query s sql).1, sql) ∷ []
  unfolding handle_query execute_and_relay
  handle_query-queried s sql c = answered-queried _ _ ∙ relay-Quiet _ _ _

  pub handle_query-in_transaction :
      (s : Session) (sql : Bytes) (c : Client)
      → (handle_query env s sql c).0.in_transaction ≡ (route_query s sql).0.in_transaction
  unfolding handle_query
  handle_query-in_transaction s sql c = answered-in_transaction _ _
