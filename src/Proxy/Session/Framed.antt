-- ===== src/Proxy/Session/Framed.antt =====
-- What the client of a session is sent is a sequence of messages.
use mathlib.Core.Path.{subst}
use waltap.Prelude.{
  ℕ, suc, ◌+◌, ◌≡◌, refl, ◌∙◌, ap, ◌⊎◌, length, length-append, take, arith, Option, none, some, inl,
  inr, List, [], ◌∷◌, ◌++◌, map, append_assoc, Bytes, All, ◌==◌, Bool-cases, Option-cases,
}
use waltap.Proxy.Wire.{
  FieldDescription, row_description, data_row, command_complete, ready_for_query, extract_sql,
  severity,
}
use waltap.Proxy.Wire.Frames.{
  frame, error_response-frame, command_complete-frame, ready_for_query-frame, row_description-frame,
  data_row-frame,
}
use waltap.Proxy.Session.{
  QueryResult, query_error, rows, Env, Client, Io, follow, fail_with, ◌>>◌, Session, send, send_all,
  relay_rows, tag_or_default, reads_rows, relay, execute_and_relay, send_failure, answered,
  handle_query, handle_message,
}

-- A kind, the length of what follows, and a body.
abbrev pub IsFrame : Bytes → Type 0
IsFrame msg = (kind : ℕ) × (body : Bytes) × (msg ≡ frame kind body)

module _ (env : Env) where
  -- What the n-th write has written: a whole message, or as many bytes of one as it has written
  -- where it fails.
  abbrev pub IsWritten : ℕ → Bytes → Type 0
  IsWritten n piece =
      ((env.write_error n ≡ none) × IsFrame piece)
      ⊎ ((msg e : Bytes) × (written : ℕ) × (env.write_error n ≡ some (written, e))
          × IsFrame msg
          × (piece ≡ take written msg))

  -- What the writes from the n-th on have written.
  abbrev pub AreWritten : ℕ → List Bytes → Type 0
  AreWritten n [] = Unit
  AreWritten n (piece ∷ pieces) = IsWritten n piece × AreWritten (suc n) pieces

  -- Behind `base`, of as many writes, the client was sent these.
  abbrev pub FramedBehind : List Bytes → Client → Type 0
  FramedBehind base c =
      (pieces : List Bytes) × (c.sent ≡ base ++ pieces)
      × (c.writes ≡ length base + length pieces)
      × AreWritten (length base) pieces

  abbrev pub KeepsFramed : Io → Type 0
  KeepsFramed m = (base : List Bytes) (c : Client) → FramedBehind base c → FramedBehind base (m c).0

  AreWritten-append :
      (n : ℕ) (pieces : List Bytes) (piece : Bytes)
      → AreWritten n pieces
      → IsWritten (n + length pieces) piece
      → AreWritten n (pieces ++ piece ∷ [])
  AreWritten-append n [] piece h w = (subst (λ (k : ℕ). IsWritten k piece) (omega arith) w, tt)
  AreWritten-append n (p ∷ pieces) piece (h, more) w = (
    h,
    AreWritten-append (suc n) pieces piece more
        (subst (λ (k : ℕ). IsWritten k piece) (omega arith) w),
  )

  sent_more :
      (base : List Bytes) (c d : Client) (piece : Bytes)
      → IsWritten c.writes piece
      → d.sent ≡ c.sent ++ piece ∷ []
      → d.writes ≡ suc c.writes
      → FramedBehind base c
      → FramedBehind base d
  sent_more base c d piece w e more (pieces, all, count, h) = (
    pieces ++ piece ∷ [],
    e ∙ ap (λ l. l ++ piece ∷ []) all ∙ append_assoc base pieces (piece ∷ []),
    omega (arith, more, count, length-append pieces (piece ∷ [])),
    AreWritten-append (length base) pieces piece h (subst (λ (k : ℕ). IsWritten k piece) count w),
  )

  pub send-KeepsFramed : (msg : Bytes) → IsFrame msg → KeepsFramed (send env msg)
  unfolding send
  send-KeepsFramed msg f base c h = elim (Option-cases (env.write_error c.writes)) [
    | inl e ↦
        rw (e, send)
          (sent_more base c (record c { sent = c.sent ++ msg ∷ []; writes = suc c.writes }) msg
            (inl (e, f)) refl refl h)
    | inr ((n, x), e) ↦
        rw (e, send)
          (sent_more base c (record c { sent = c.sent ++ take n msg ∷ []; writes = suc c.writes })
            (take n msg) (inr (msg, x, n, e, f, refl)) refl refl h)
  ]

  follow-KeepsFramed :
      (k : Io) (r : Client × Option Bytes) (base : List Bytes)
      → KeepsFramed k
      → FramedBehind base r.0
      → FramedBehind base (follow k r).0
  follow-KeepsFramed k (c, none) base h f = h base c f
  follow-KeepsFramed k (c, some e) base h f = f

  pub >>-KeepsFramed : (m k : Io) → KeepsFramed m → KeepsFramed k → KeepsFramed (m >> k)
  >>-KeepsFramed m k h h' base c f = follow-KeepsFramed k (m c) base h' (h base c f)

  pub send_all-KeepsFramed :
      (msgs : List Bytes) → All IsFrame msgs → KeepsFramed (send_all env msgs)
  unfolding send_all
  send_all-KeepsFramed [] h base c f = f
  send_all-KeepsFramed (msg ∷ msgs) (one, more) base c f =
      follow-KeepsFramed (send_all env msgs) (send env msg c) base (send_all-KeepsFramed msgs more)
        (send-KeepsFramed msg one base c f)

  data_rows-IsFrame : (values : List (List (Option Bytes))) → All IsFrame (map data_row values)
  data_rows-IsFrame [] = tt
  data_rows-IsFrame (vs ∷ values) = ((_, _, data_row-frame vs), data_rows-IsFrame values)

  relay_rows-KeepsFramed :
      (fs : List FieldDescription) (values : List (List (Option Bytes))) (e : Option Bytes)
      → KeepsFramed (relay_rows env fs values e)
  unfolding relay_rows
  relay_rows-KeepsFramed [] values e = λ base c f. f
  relay_rows-KeepsFramed (d ∷ ds) values e =
      >>-KeepsFramed (send env (row_description (d ∷ ds)))
        (send_all env (map data_row values) >> fail_with e)
        (send-KeepsFramed _ (_, _, row_description-frame (d ∷ ds)))
        (>>-KeepsFramed (send_all env (map data_row values)) (fail_with e)
          (send_all-KeepsFramed _ (data_rows-IsFrame values)) (λ base c f. f))

  relay-KeepsFramed : (status : ℕ) (r : QueryResult) → KeepsFramed (relay env status r)
  unfolding relay
  relay-KeepsFramed status (query_error e) = λ base c f. f
  relay-KeepsFramed status (rows ds values e tag) =
      let last = send env (ready_for_query status) in
      let complete = send env (command_complete (tag_or_default (tag (reads_rows ds)))) in
      >>-KeepsFramed (relay_rows env ds values e) (complete >> last)
        (relay_rows-KeepsFramed ds values e)
        (>>-KeepsFramed complete last
          (send-KeepsFramed _ (_, _, command_complete-frame (tag_or_default (tag (reads_rows ds)))))
          (send-KeepsFramed _ (b'Z', status ∷ [], ready_for_query-frame status)))

  pub send_failure-FramedBehind :
      (message : Bytes) (status : ℕ) (base : List Bytes) (c : Client)
      → FramedBehind base c
      → FramedBehind base (send_failure env message status c)
  unfolding send_failure
  send_failure-FramedBehind message status base c f =
      send-KeepsFramed _ (b'Z', status ∷ [], ready_for_query-frame status) base _
        (send-KeepsFramed _
          (
            b'E',
            b'S' ∷ (severity ++ 0 ∷ b'M' ∷ (message ++ 0 ∷ 0 ∷ [])),
            error_response-frame message,
          )
          base c f)

  answered-FramedBehind :
      (s : Session) (r : Client × Option Bytes) (base : List Bytes)
      → FramedBehind base r.0
      → FramedBehind base (answered env s r).1
  answered-FramedBehind s (c, none) base f = f
  answered-FramedBehind s (c, some e) base f = send_failure-FramedBehind e _ base c f

  handle_query-FramedBehind :
      (s : Session) (sql : Bytes) (base : List Bytes) (c : Client)
      → FramedBehind base c
      → FramedBehind base (handle_query env s sql c).1
  unfolding handle_query execute_and_relay
  handle_query-FramedBehind s sql base c f =
      answered-FramedBehind _ _ base (relay-KeepsFramed _ _ base _ f)

  -- A message of the client, of any kind, is answered by frames.
  pub handle_message-FramedBehind :
      (s : Session) (msg : Bytes) (base : List Bytes) (c : Client)
      → FramedBehind base c
      → FramedBehind base (handle_message env s msg c).1
  unfolding handle_message
  handle_message-FramedBehind s [] base c f = f
  handle_message-FramedBehind s (kind ∷ body) base c f = elim (Bool-cases (kind == b'Q')) [
    | inl q ↦
        rw (q, handle_message) (handle_query-FramedBehind s (extract_sql (kind ∷ body)) base c f)
    | inr q ↦ rw (q, handle_message) (send_failure-FramedBehind _ b'I' base c f)
  ]
