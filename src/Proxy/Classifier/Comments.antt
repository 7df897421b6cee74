-- ===== src/Proxy/Classifier/Comments.antt =====
-- Spaces and comments in front of a statement do not change how it is routed.
use waltap.Prelude.{
  ℕ, ◌≡◌, refl, sym, ◌∙◌, ap, some, [], ◌∷◌, ◌++◌, arith, inl, inr, length-append, drop_past,
  List-cases, Lacks, index_byte-Lacks, index_byte-append, Bytes, has_prefix, index_byte, trim_space,
  trim_left, trim_right, trim_space_idem, length-trim_right, Option, trim_space-trim_right,
  trim_right-append_ne, trim_right-append_nil, trim_right-All, trim_space-nil,
}
use waltap.Proxy.Classifier.{strip_round, strip_leading_comments, classify_query}
use waltap.Proxy.Classifier.Strip.{strip-go, strip-stop, strip-trim_space}

pub classify-strip :
    (s t : Bytes)
    → strip_leading_comments s ≡ strip_leading_comments t
    → classify_query s ≡ classify_query t
unfolding classify_query
classify-strip s t e = rw (
  strip-trim_space (trim_space s) s (trim_space_idem s),
  strip-trim_space (trim_space t) t (trim_space_idem t),
  e,
)

-- Spaces around a statement do not matter: texts that trim to the same text are routed alike.
pub classify-trim_space :
    (s t : Bytes) → trim_space s ≡ trim_space t → classify_query s ≡ classify_query t
classify-trim_space s t e = classify-strip s t (strip-trim_space s t e)

strip-blank : (s : Bytes) → trim_right s ≡ [] → strip_leading_comments s ≡ []
strip-blank s e =
    strip-stop s [] λ again. rw (trim_space-nil s e) (unfold strip_round has_prefix in refl)

abbrev pub line_comment : Bytes → Bytes → Bytes
line_comment line sql = b'-' ∷ b'-' ∷ (line ++ b'\n' ∷ sql)

-- The trim reaches the comment only where the statement behind it is blank.
trim-line_comment :
    (line sql : Bytes) {c : ℕ} {t : Bytes}
    → trim_right sql ≡ c ∷ t
    → trim_space (line_comment line sql) ≡ line_comment line (trim_right sql)
unfolding trim_space trim_left
trim-line_comment line sql e =
    trim_right-append_ne (b'-' ∷ b'-' ∷ line) (b'\n' ∷ sql) (trim_right_step sql e) ∙ rw e
  where
    trim_right_step :
        (s : Bytes) {c : ℕ} {t : Bytes}
        → trim_right s ≡ c ∷ t
        → trim_right (b'\n' ∷ s) ≡ b'\n' ∷ c ∷ t
    trim_right_step s e = unfold trim_right in rw e

trim-line_comment_blank :
    (line sql : Bytes)
    → trim_right sql ≡ []
    → trim_space (line_comment line sql) ≡ b'-' ∷ b'-' ∷ trim_right line
unfolding trim_space trim_left trim_right
trim-line_comment_blank line sql e =
    trim_right-append_nil (b'-' ∷ b'-' ∷ line) (b'\n' ∷ sql) (rw e) ∙ ground arith

strip_round-line_comment :
    (again : Bytes → Option Bytes) (line t : Bytes)
    → Lacks b'\n' line
    → strip_round again (line_comment line t) ≡ again t
unfolding strip_round has_prefix index_byte
strip_round-line_comment again line t h =
    rw (index_byte-append b'\n' line t h, strip_round) (ap again (drop_past line b'\n' t))

strip_round-unended :
    (again : Bytes → Option Bytes) (line : Bytes)
    → Lacks b'\n' line
    → strip_round again (b'-' ∷ b'-' ∷ line) ≡ some []
unfolding strip_round has_prefix index_byte
strip_round-unended again line h = rw (index_byte-Lacks b'\n' line h, strip_round)

strip-line_comment :
    (line sql : Bytes)
    → Lacks b'\n' line
    → strip_leading_comments (line_comment line sql) ≡ strip_leading_comments sql
strip-line_comment line sql h = elim (List-cases (trim_right sql)) [
  | inl e ↦
      strip-stop _ [] (λ again.
        rw (trim-line_comment_blank line sql e)
          (strip_round-unended again (trim_right line) (trim_right-All _ line h)))
      ∙ sym (strip-blank sql e)
  | inr (c, t, e) ↦
      strip-go _ (trim_right sql)
        (omega (arith, length-trim_right sql, length-append line (b'\n' ∷ sql)))
        (λ again.
          rw (trim-line_comment line sql e)
            (strip_round-line_comment again line (trim_right sql) h))
      ∙ strip-trim_space _ sql (trim_space-trim_right sql)
]

-- A line comment in front of a statement does not change how it is routed.
pub classify-line_comment :
    (line sql : Bytes)
    → Lacks b'\n' line
    → classify_query (line_comment line sql) ≡ classify_query sql
classify-line_comment line sql h = classify-strip _ sql (strip-line_comment line sql h)
