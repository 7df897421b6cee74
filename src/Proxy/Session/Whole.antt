-- ===== src/Proxy/Session/Whole.antt =====
-- A message with several statements is routed by the first word of its text.
use waltap.Prelude.{
  ℕ, Option, ◌≡◌, refl, sym, ◌∙◌, ap, false, some, [], ◌∷◌, ◌++◌, Bytes, codes, trim_space,
  trim_left, trim_right, trim_right-append_ne, has_prefix, to_upper, bytes_eq, trim_space_idem,
}
use waltap.Proxy.Classifier.{
  query_read, classify_query, classify_stripped, classify_word, first_token, is_one_of,
  strip_leading_comments, strip_round,
}
use waltap.Proxy.Classifier.Strip.{strip-stop}
use waltap.Proxy.Session.{
  Backend, replica, Env, Client, Session, route_query, route_as, handle_query,
}
use waltap.Proxy.Session.Writes.{handle_query-queried, handle_query-in_transaction}
use waltap.Proxy.Classifier.Comments.{classify-trim_space}

abbrev pub select_with : Bytes → Bytes
select_with rest = codes "SELECT " ++ rest

trim-select_with :
    (rest : Bytes) {c : ℕ} {t : Bytes}
    → trim_right rest ≡ c ∷ t
    → trim_space (select_with rest) ≡ select_with (c ∷ t)
unfolding trim_space trim_left
trim-select_with rest e = trim_right-append_ne (codes "SELECT ") rest e

-- A text that is trimmed already.
classify-trimmed :
    (s : Bytes)
    → trim_space s ≡ s
    → ((again : Bytes → Option Bytes) → strip_round again s ≡ some s)
    → classify_query s ≡ classify_stripped s
unfolding classify_query
classify-trimmed s trimmed plain =
    let stripped : strip_leading_comments s ≡ s =
      strip-stop s s (λ again. rw trimmed (plain again)) in
    rw (trimmed, classify_query, stripped, trimmed)

strip_round-select_with :
    (again : Bytes → Option Bytes) (rest : Bytes)
    → strip_round again (select_with rest) ≡ some (select_with rest)
unfolding strip_round has_prefix
strip_round-select_with again rest = refl

classify_stripped-select_with : (rest : Bytes) → classify_stripped (select_with rest) ≡ query_read
unfolding classify_stripped classify_word first_token to_upper is_one_of bytes_eq
classify_stripped-select_with rest = refl

classify-select_with :
    (rest : Bytes) {c : ℕ} {t : Bytes}
    → trim_right rest ≡ c ∷ t
    → classify_query (select_with rest) ≡ query_read
classify-select_with rest {c} {t} e =
    let trimmed = trim-select_with rest e in
    let again_trimmed : trim_space (select_with (c ∷ t)) ≡ select_with (c ∷ t) =
      rw trimmed at (trim_space_idem (select_with rest)) in
    classify-trim_space (select_with rest) (select_with (c ∷ t)) (trimmed ∙ sym again_trimmed)
    ∙ classify-trimmed (select_with (c ∷ t)) again_trimmed
        (λ again. strip_round-select_with again (c ∷ t))
    ∙ classify_stripped-select_with (c ∷ t)

-- Outside a transaction a message whose text begins with SELECT is given to the replica as a whole
-- and opens no transaction, whatever statements follow the first one, if anything but spaces does.
pub whole_text_to_replica :
    (env : Env) (s : Session) (rest : Bytes) (c : Client) {d : ℕ} {t : Bytes}
    → s.in_transaction ≡ false
    → trim_right rest ≡ d ∷ t
    → ((handle_query env s (select_with rest) c).1.queried
        ≡ c.queried ++ (replica, select_with rest) ∷ [])
      × ((handle_query env s (select_with rest) c).0.in_transaction ≡ false)
unfolding route_query route_as
whole_text_to_replica env s rest c outside e =
    let routed : route_query s (select_with rest) ≡ (s, replica) =
      rw (classify-select_with rest e, route_query, outside) in
    (
      handle_query-queried env s (select_with rest) c
          ∙ ap (λ (r : Session × Backend). c.queried ++ (r.1, select_with rest) ∷ []) routed,
      handle_query-in_transaction env s (select_with rest) c
          ∙ ap (λ (r : Session × Backend). r.0.in_transaction) routed
          ∙ outside,
    )
