-- ===== src/Proxy/Session/Answers.antt =====
-- What a client is sent for a statement, where the writes to it succeed.
use waltap.Prelude.{
  ℕ, ◌≡◌, refl, sym, ◌∙◌, ap, Option, none, some, List, [], ◌∷◌, ◌++◌, map, length, arith, true,
  false, codes, if◌then◌else◌, inl, inr, Bool-cases, append_assoc, append-nil, Bytes,
}
use waltap.Proxy.Wire.{
  FieldDescription, row_description, data_row, command_complete, ready_for_query, error_response,
}
use waltap.Proxy.Wire.Frames.{
  frame, command_complete-frame, error_response-frame, ready_for_query-frame,
}
use waltap.Proxy.Session.{
  QueryResult, query_error, rows, Env, Client, Io, follow, fail_with, ◌>>◌, Session, ready_status,
  fail_session, error_status, route_query, send, send_all, relay_rows, tag_or_default, relay,
  execute_and_relay, send_failure, answered, handle_query,
}

-- The error of a result that the session acts on, and the messages in front of it.
abbrev reported : QueryResult → Option Bytes
reported (query_error e) = some e
reported (rows [] values failure tag) = none
reported (rows (f ∷ fs) values failure tag) = failure

abbrev completion : Option Bytes → Bytes → List Bytes
completion none tag = command_complete tag ∷ []
completion (some e) tag = []

-- The tag that the client is shown: an empty one is replaced.
abbrev pub shown_tag : Bytes → Bytes
shown_tag [] = codes "SELECT 0"
shown_tag (c ∷ tag) = c ∷ tag

-- The completion of a result without fields has the tag of rows that are not closed.
abbrev relayed : QueryResult → List Bytes
relayed (query_error e) = []
relayed (rows [] values failure tag) = completion none (shown_tag (tag false))
relayed (rows (f ∷ fs) values failure tag) =
    row_description (f ∷ fs) ∷ (map data_row values ++ completion failure (shown_tag (tag true)))

-- The status behind an error.
abbrev pub failed_status : Session → ℕ
failed_status s = if s.in_transaction then b'E' else if s.tx_failed then b'E' else b'I'

abbrev closing : Session → Option Bytes → List Bytes
closing s none = ready_for_query (if s.in_transaction then b'T' else b'I') ∷ []
closing s (some e) = error_response e ∷ ready_for_query (failed_status s) ∷ []

tag_or_default-shown_tag : (tag : Bytes) → tag_or_default tag ≡ shown_tag tag
tag_or_default-shown_tag [] = refl
tag_or_default-shown_tag (c ∷ tag) = refl

error_status-failed_status : (s : Session) → error_status (fail_session s) ≡ failed_status s
error_status-failed_status s = elim (Bool-cases s.in_transaction) [ inl e ↦ rw e | inr e ↦ rw e ]

-- Every write succeeds.
abbrev pub IsReliable : Env → Type 0
IsReliable env = (n : ℕ) → env.write_error n ≡ none

-- A function that sends these messages and returns this.
abbrev pub Does : Io → List Bytes → Option Bytes → Type 0
Does m msgs r = (c : Client) → ((m c).0.sent ≡ c.sent ++ msgs) × ((m c).1 ≡ r)

follow-Does :
    (k : Io) (r : Client × Option Bytes) (msgs : List Bytes) (e : Option Bytes)
    → r.1 ≡ none
    → Does k msgs e
    → ((follow k r).0.sent ≡ r.0.sent ++ msgs) × ((follow k r).1 ≡ e)
follow-Does k (c, none) msgs e h d = d c
follow-Does k (c, some f) msgs e h d = cc

>>-Does :
    (m k : Io) (a b : List Bytes) (e : Option Bytes)
    → Does m a none
    → Does k b e
    → Does (m >> k) (a ++ b) e
>>-Does m k a b e h d c =
    let (sent, returned) = follow-Does k (m c) b e (h c).1 d in
    (sent ∙ ap (λ l. l ++ b) (h c).0 ∙ append_assoc c.sent a b, returned)

follow-Fails : (k : Io) (r : Client × Option Bytes) (e : Bytes) → r.1 ≡ some e → follow k r ≡ r
follow-Fails k (c, none) e h = cc
follow-Fails k (c, some f) e h = refl

>>-Fails : (m k : Io) (a : List Bytes) (e : Bytes) → Does m a (some e) → Does (m >> k) a (some e)
>>-Fails m k a e h c = rw (follow-Fails k (m c) e (h c).1) (h c)

module _ (env : Env) (reliable : IsReliable env) where
  send-Does : (msg : Bytes) → Does (send env msg) (msg ∷ []) none
  unfolding send
  send-Does msg c = ground (arith, reliable c.writes)

  send_all-Does : (msgs : List Bytes) → Does (send_all env msgs) msgs none
  unfolding send_all
  send_all-Does [] c = (sym (append-nil c.sent), refl)
  send_all-Does (msg ∷ msgs) c =
      >>-Does (send env msg) (send_all env msgs) (msg ∷ []) msgs none (send-Does msg)
        (send_all-Does msgs) c

  fail_with-Does : (e : Option Bytes) → Does (fail_with e) [] e
  fail_with-Does e c = (sym (append-nil c.sent), refl)

  -- The last messages of a result that the session sees as a success.
  ending-Does :
      (tag : Bytes) (status : ℕ)
      → Does
          (send env (command_complete tag) >> send env (ready_for_query status))
          (command_complete tag ∷ ready_for_query status ∷ [])
          none
  ending-Does tag status =
      >>-Does (send env (command_complete tag)) (send env (ready_for_query status))
        (command_complete tag ∷ []) (ready_for_query status ∷ []) none (send-Does _) (send-Does _)

  relay_rows-Does :
      (f : FieldDescription) (fs : List FieldDescription) (vs : List (List (Option Bytes)))
      (e : Option Bytes)
      → Does (relay_rows env (f ∷ fs) vs e) (row_description (f ∷ fs) ∷ map data_row vs) e
  unfolding relay_rows
  relay_rows-Does f fs vs e c =
      let (sent, returned) =
        >>-Does (send env (row_description (f ∷ fs)))
          (send_all env (map data_row vs) >> fail_with e) (row_description (f ∷ fs) ∷ [])
          (map data_row vs ++ []) e (send-Does _)
          (>>-Does (send_all env (map data_row vs)) (fail_with e) (map data_row vs) [] e
            (send_all-Does _) (fail_with-Does e))
          c in
      (sent ∙ ap (λ l. c.sent ++ row_description (f ∷ fs) ∷ l) (append-nil _), returned)

  abbrev pub relay_closing : ℕ → Option Bytes → List Bytes
  relay_closing status none = ready_for_query status ∷ []
  relay_closing status (some e) = []

  pub relay-Does :
      (status : ℕ) (r : QueryResult)
      → Does (relay env status r) (relayed r ++ relay_closing status (reported r)) (reported r)
  unfolding relay
  relay-Does status (query_error e) c = (sym (append-nil c.sent), refl)
  relay-Does status (rows [] vs e tag) c =
      rw (tag_or_default-shown_tag (tag false)) (ending-Does (shown_tag (tag false)) status c)
  relay-Does status (rows (f ∷ fs) vs none tag) c =
      let complete = command_complete (shown_tag (tag true)) in
      let (sent, returned) =
        >>-Does (relay_rows env (f ∷ fs) vs none)
          (send env complete >> send env (ready_for_query status))
          (row_description (f ∷ fs) ∷ map data_row vs) (complete ∷ ready_for_query status ∷ []) none
          (relay_rows-Does f fs vs none) (ending-Does (shown_tag (tag true)) status) c in
      rw (tag_or_default-shown_tag (tag true)) (
        sent
            ∙ ap (λ l. c.sent ++ row_description (f ∷ fs) ∷ l)
                (sym
                  (append_assoc (map data_row vs) (complete ∷ []) (ready_for_query status ∷ []))),
        returned,
      )
  relay-Does status (rows (f ∷ fs) vs (some e) tag) c =
      let (sent, returned) =
        >>-Fails (relay_rows env (f ∷ fs) vs (some e))
          (send env (command_complete (tag_or_default (tag true)))
            >> send env (ready_for_query status))
          (row_description (f ∷ fs) ∷ map data_row vs) e (relay_rows-Does f fs vs (some e)) c in
      (
        sent
            ∙ ap (λ l. c.sent ++ row_description (f ∷ fs) ∷ l)
                (sym (append-nil (map data_row vs ++ []) ∙ append-nil (map data_row vs))),
        returned,
      )

  send_failure-sent :
      (message : Bytes) (status : ℕ) (c : Client)
      → (send_failure env message status c).sent
        ≡ c.sent ++ error_response message ∷ ready_for_query status ∷ []
  unfolding send_failure
  send_failure-sent message status c =
      (send-Does (ready_for_query status) _).0
      ∙ ap (λ l. l ++ ready_for_query status ∷ []) (send-Does (error_response message) c).0
      ∙ append_assoc c.sent (error_response message ∷ []) (ready_for_query status ∷ [])

  answered-sent :
      (s : Session) (m : Io) (r : QueryResult) (c : Client)
      → Does m (relayed r ++ relay_closing (ready_status s) (reported r)) (reported r)
      → (answered env s (m c)).1.sent ≡ c.sent ++ (relayed r ++ closing s (reported r))
  answered-sent s m r c h = go (m c) (reported r) (h c).0 (h c).1
    where
      go :
          (w : Client × Option Bytes) (e : Option Bytes)
          → w.0.sent ≡ c.sent ++ (relayed r ++ relay_closing (ready_status s) e)
          → w.1 ≡ e
          → (answered env s w).1.sent ≡ c.sent ++ (relayed r ++ closing s e)
      go (d, none) none sent q = sent
      go (d, some f) none sent q = cc
      go (d, none) (some e) sent q = cc
      go (d, some f) (some e) sent q =
          let same : f ≡ e = cc in
          let last = error_response e ∷ ready_for_query (failed_status s) ∷ [] in
          rw (same, error_status-failed_status s)
            (send_failure-sent e _ d
              ∙ ap (λ l. l ++ last) (sent ∙ ap (λ l. c.sent ++ l) (append-nil (relayed r)))
              ∙ append_assoc c.sent (relayed r) last)

  -- The answer in the words of the code.
  handle_query-messages :
      (s : Session) (sql : Bytes) (c : Client)
      → (handle_query env s sql c).1.sent
        ≡ c.sent
          ++ (relayed (env.query (length c.queried) (route_query s sql).1 sql)
              ++ closing
                  (route_query s sql).0
                  (reported (env.query (length c.queried) (route_query s sql).1 sql)))
  unfolding handle_query execute_and_relay
  handle_query-messages s sql c =
      let r = env.query (length c.queried) (route_query s sql).1 sql in
      let s' = (route_query s sql).0 in
      answered-sent s' (relay env (ready_status s') r) r
        (record c { queried = c.queried ++ ((route_query s sql).1, sql) ∷ [] })
        (relay-Does (ready_status s') r)

-- The completion of a statement, with a tag, and the status.
abbrev pub done_answer : Session → Bytes → List Bytes
done_answer s tag =
    frame b'C' (shown_tag tag ++ 0 ∷ [])
    ∷ frame b'Z' ((if s.in_transaction then b'T' else b'I') ∷ [])
    ∷ []

-- An error, and the status behind it.
abbrev pub error_answer : Session → Bytes → List Bytes
error_answer s e =
    frame b'E' (b'S' ∷ (codes "ERROR" ++ 0 ∷ b'M' ∷ (e ++ 0 ∷ 0 ∷ [])))
    ∷ frame b'Z' (failed_status s ∷ [])
    ∷ []

-- The answer to a result. One without fields is complete, with the tag of rows that are not closed.
abbrev pub answer : Session → QueryResult → List Bytes
answer s (query_error e) = error_answer s e
answer s (rows [] values failure tag) = done_answer s (tag false)
answer s (rows (f ∷ fs) values none tag) =
    row_description (f ∷ fs) ∷ (map data_row values ++ done_answer s (tag true))
answer s (rows (f ∷ fs) values (some e) tag) =
    row_description (f ∷ fs) ∷ (map data_row values ++ error_answer s e)

done-frames :
    (s : Session) (tag : Bytes)
    → completion none (shown_tag tag) ++ closing s none ≡ done_answer s tag
done-frames s tag = rw (command_complete-frame (shown_tag tag), ready_for_query-frame _)

error-frames : (s : Session) (e : Bytes) → closing s (some e) ≡ error_answer s e
error-frames s e = rw (error_response-frame e, ready_for_query-frame (failed_status s))

relayed-answer : (s : Session) (r : QueryResult) → relayed r ++ closing s (reported r) ≡ answer s r
relayed-answer s (query_error e) = error-frames s e
relayed-answer s (rows [] values failure tag) = done-frames s (tag false)
relayed-answer s (rows (f ∷ fs) values none tag) =
    ap (λ l. row_description (f ∷ fs) ∷ l)
      (append_assoc (map data_row values) (completion none (shown_tag (tag true))) (closing s none)
        ∙ ap (λ l. map data_row values ++ l) (done-frames s (tag true)))
relayed-answer s (rows (f ∷ fs) values (some e) tag) =
    ap (λ l. row_description (f ∷ fs) ∷ l)
      (append_assoc (map data_row values) [] (closing s (some e))
        ∙ ap (λ l. map data_row values ++ l) (error-frames s e))

-- The answer to a statement, where every write succeeds: the description and the rows, then the
-- completion and the status, T in a transaction and else I, or the error, once, and the status
-- after it, E in a transaction and where one has failed, and else I.
pub handle_query-sent :
    (env : Env) (reliable : IsReliable env) (s : Session) (sql : Bytes) (c : Client)
    → (handle_query env s sql c).1.sent
      ≡ c.sent
        ++ answer (route_query s sql).0 (env.query (length c.queried) (route_query s sql).1 sql)
handle_query-sent env reliable s sql c =
    handle_query-messages env reliable s sql c
    ∙ ap (λ l. c.sent ++ l)
        (relayed-answer (route_query s sql).0
          (env.query (length c.queried) (route_query s sql).1 sql))
