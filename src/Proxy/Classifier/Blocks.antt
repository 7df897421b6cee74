-- ===== src/Proxy/Classifier/Blocks.antt =====
-- Block comments, nested ones included, in front of a statement do not change how it is routed.
use waltap.Prelude.{
  ℕ, suc, ◌≡◌, ◌≢◌, refl, ◌∙◌, ap, [], ◌∷◌, ◌++◌, arith, length-append, Bytes, append_assoc,
  has_prefix, trim_space, trim_left, trim_right, trim_space-trim_right, trim_right-append_ne,
  length-trim_right,
}
use waltap.Proxy.Classifier.{skip_block, strip_round, strip_leading_comments, classify_query}
use waltap.Proxy.Classifier.Strip.{strip-go, strip-trim_space}
use waltap.Proxy.Classifier.Comments.{classify-strip}

abbrev pub block_comment : Bytes → Bytes → Bytes
block_comment body rest = b'/' ∷ b'*' ∷ (body ++ b'*' ∷ b'/' ∷ rest)

-- The first byte, if there is one, is another one.
abbrev pub StartsNot : ℕ → Bytes → Type 0
StartsNot b [] = Unit {0}
StartsNot b (c ∷ s) = c ≢ b

-- The text between `/*` and its `*/`: bytes, of which a slash has another byte than a star behind
-- it, and a star another one than a slash, and whole comments.
pub data IsBody : Bytes → Type 0 where
  blank : IsBody []
  slash : {c : ℕ} {s : Bytes} → c ≢ b'*' → IsBody (c ∷ s) → IsBody (b'/' ∷ c ∷ s)
  star : {s : Bytes} → StartsNot b'/' s → IsBody s → IsBody (b'*' ∷ s)
  byte : {c : ℕ} {s : Bytes} → c ≢ b'/' → c ≢ b'*' → IsBody s → IsBody (c ∷ s)
  nest : {a b s : Bytes} → IsBody a → IsBody b → s ≡ block_comment a b → IsBody s

skip_open : (d : ℕ) (s : Bytes) → skip_block d (b'/' ∷ b'*' ∷ s) ≡ skip_block (suc d) s
unfolding skip_block
skip_open d s = ap (λ (n : ℕ). skip_block n s) (omega arith)

skip_close : (d : ℕ) (s : Bytes) → skip_block (suc (suc d)) (b'*' ∷ b'/' ∷ s) ≡ skip_block (suc d) s
unfolding skip_block
skip_close d s = ground arith

skip_end : (s : Bytes) → skip_block 1 (b'*' ∷ b'/' ∷ s) ≡ s
unfolding skip_block
skip_end s = refl

skip_byte :
    (n c d : ℕ) (s : Bytes) → c ≢ b'/' → c ≢ b'*' → skip_block n (c ∷ d ∷ s) ≡ skip_block n (d ∷ s)
unfolding skip_block
skip_byte n c d s h k = ground arith

-- A byte of the body has at least the end of the comment behind it.
skip_body_byte :
    (n c : ℕ) (s u : Bytes)
    → c ≢ b'/'
    → c ≢ b'*'
    → skip_block n (c ∷ (s ++ b'*' ∷ b'/' ∷ u)) ≡ skip_block n (s ++ b'*' ∷ b'/' ∷ u)
skip_body_byte n c [] u = skip_byte n c b'*' (b'/' ∷ u)
skip_body_byte n c (d ∷ s) u = skip_byte n c d (s ++ b'*' ∷ b'/' ∷ u)

skip_slash : (n c : ℕ) (s : Bytes) → c ≢ b'*' → skip_block n (b'/' ∷ c ∷ s) ≡ skip_block n (c ∷ s)
unfolding skip_block
skip_slash n c s h = ground arith

skip_star : (n c : ℕ) (s : Bytes) → c ≢ b'/' → skip_block n (b'*' ∷ c ∷ s) ≡ skip_block n (c ∷ s)
unfolding skip_block
skip_star n c s h = ground arith

skip_body_star :
    (n : ℕ) (s u : Bytes)
    → StartsNot b'/' s
    → skip_block n (b'*' ∷ (s ++ b'*' ∷ b'/' ∷ u)) ≡ skip_block n (s ++ b'*' ∷ b'/' ∷ u)
skip_body_star n [] u h = skip_star n b'*' (b'/' ∷ u) (omega arith)
skip_body_star n (c ∷ s) u h = skip_star n c (s ++ b'*' ∷ b'/' ∷ u) h

skip-IsBody :
    (d : ℕ) (u : Bytes) {s : Bytes}
    → IsBody s
    → skip_block (suc d) (s ++ b'*' ∷ b'/' ∷ u) ≡ skip_block (suc d) (b'*' ∷ b'/' ∷ u)
skip-IsBody d u blank = refl
skip-IsBody d u (slash {c} {s} h b) =
    skip_slash (suc d) c (s ++ b'*' ∷ b'/' ∷ u) h ∙ skip-IsBody d u b
skip-IsBody d u (star {s} h b) = skip_body_star (suc d) s u h ∙ skip-IsBody d u b
skip-IsBody d u (byte {c} {s} h k b) = skip_body_byte (suc d) c s u h k ∙ skip-IsBody d u b
skip-IsBody d u (nest {a} {b} x y e) =
    rw (e, append_assoc, skip_open)
      (skip-IsBody (suc d) (b ++ b'*' ∷ b'/' ∷ u) x ∙ skip_close d _ ∙ skip-IsBody d u y)

-- A whole comment is skipped, and nothing of what stands behind it.
skip_block-comment :
    (body : Bytes) (rest : Bytes) → IsBody body → skip_block 0 (block_comment body rest) ≡ rest
skip_block-comment body rest h = skip_open 0 _ ∙ skip-IsBody 0 rest h ∙ skip_end rest

trim_right-close : (s : Bytes) → trim_right (b'*' ∷ b'/' ∷ s) ≡ b'*' ∷ b'/' ∷ trim_right s
unfolding trim_right
trim_right-close s = ground arith

trim-block_comment :
    (body sql : Bytes) → trim_space (block_comment body sql) ≡ block_comment body (trim_right sql)
unfolding trim_space trim_left
trim-block_comment body sql =
    trim_right-append_ne (b'/' ∷ b'*' ∷ body) (b'*' ∷ b'/' ∷ sql) (trim_right-close sql)

strip-block_comment :
    (body sql : Bytes)
    → IsBody body
    → strip_leading_comments (block_comment body sql) ≡ strip_leading_comments sql
unfolding strip_round has_prefix
strip-block_comment body sql h =
    strip-go _ (trim_right sql)
      (omega (arith, length-trim_right sql, length-append body (b'*' ∷ b'/' ∷ sql)))
      (λ again. rw (trim-block_comment body sql) (ap again (skip_block-comment body _ h)))
    ∙ strip-trim_space _ sql (trim_space-trim_right sql)

-- A block comment in front of a statement does not change how it is routed, whatever bytes it has:
-- slashes and stars that open or close nothing, and whole comments, nested to any depth.
pub classify-block_comment :
    (body sql : Bytes) → IsBody body → classify_query (block_comment body sql) ≡ classify_query sql
classify-block_comment body sql h = classify-strip _ sql (strip-block_comment body sql h)
