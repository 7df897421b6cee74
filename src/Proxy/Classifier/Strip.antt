-- ===== src/Proxy/Classifier/Strip.antt =====
-- The loop of `stripLeadingComments` ends, and what spaces and comments in front of a text do.
use waltap.Prelude.{
  ℕ, zero, suc, ◌+◌, ◌-◌, ◌≤◌, ◌<◌, ◌≡◌, sym, ap, ◌∙◌, ◌⊎◌, inl, inr, true, Option, some, [], ◌∷◌,
  arith, length, drop, Bytes, has_prefix, index_byte, trim_space, length-trim_space, Bool-cases,
  Option-cases,
}
use waltap.Proxy.Classifier.{skip_block, strip_round, strip_loop, strip_leading_comments}

length-drop-le : (n : ℕ) (s : Bytes) → length (drop n s) ≤ length s
length-drop-le zero s = omega arith
length-drop-le (suc n) [] = omega arith
length-drop-le (suc n) (c ∷ s) = omega (arith, length-drop-le n s)

length-skip_block-le : (depth : ℕ) (s : Bytes) → length (skip_block depth s) ≤ length s
unfolding skip_block
length-skip_block-le depth [] = omega arith
length-skip_block-le depth (c ∷ []) = omega arith
length-skip_block-le depth (c ∷ d ∷ s) = ground (
  arith,
  length-skip_block-le (depth + 1) s,
  length-skip_block-le (depth - 1) s,
  length-skip_block-le depth (d ∷ s),
)

abbrev dashes : Bytes
dashes = b'-' ∷ b'-' ∷ []

abbrev slash_star : Bytes
slash_star = b'/' ∷ b'*' ∷ []

length-drop-suc :
    (n : ℕ) (s : Bytes) → has_prefix s dashes ≡ true → length (drop (suc n) s) < length s
unfolding has_prefix
length-drop-suc n [] h = cc
length-drop-suc n (c ∷ s) h = omega (arith, length-drop-le n s)

length-skip_block-lt :
    (s : Bytes) → has_prefix s slash_star ≡ true → length (skip_block 0 s) < length s
unfolding has_prefix skip_block
length-skip_block-lt [] h = cc
length-skip_block-lt (c ∷ []) h = ground arith
length-skip_block-lt (c ∷ d ∷ s) h = ground (arith, length-skip_block-le 1 s)

-- A round ends the loop, or goes on with a shorter text, whatever the next round is.
abbrev Next : Bytes → Type 0
Next s =
    ((r : Bytes) × ((again : Bytes → Option Bytes) → strip_round again s ≡ some r))
    ⊎ ((t : Bytes) × (length t < length s)
        × ((again : Bytes → Option Bytes) → strip_round again s ≡ again t))

strip_round-Next : (s : Bytes) → Next s
unfolding strip_round
strip_round-Next s = elim (Bool-cases (has_prefix s dashes)) [
  | inl line ↦ elim (Option-cases (index_byte s b'\n')) [
    | inl e ↦ inl ([], λ again. rw (line, e, strip_round))
    | inr (i, e) ↦
        inr (drop (suc i) s, length-drop-suc i s line, λ again. rw (line, e, strip_round))
  ]
  | inr h ↦ elim (Bool-cases (has_prefix s slash_star)) [
    | inl block ↦
        inr (skip_block 0 s, length-skip_block-lt s block, λ again. rw (h, block, strip_round))
    | inr g ↦ inl (s, λ again. rw (h, g, strip_round))
  ]
]

-- On fuel above the length of the text the loop ends, and more fuel changes nothing.
pub strip_loop-total :
    (fuel : ℕ) (s : Bytes) → length s < fuel → (r : Bytes) × (strip_loop fuel s ≡ some r)
unfolding strip_loop
strip_loop-total zero s h = elim h [ ]
strip_loop-total (suc fuel) s h = elim (strip_round-Next (trim_space s)) [
  | inl (r, e) ↦ (r, e (strip_loop fuel))
  | inr (t, lt, e) ↦
      rw (e (strip_loop fuel)) (strip_loop-total fuel t (omega (arith, length-trim_space s)))
]

strip_loop-agree :
    (f g : ℕ) (s : Bytes) → length s < f → length s < g → strip_loop f s ≡ strip_loop g s
unfolding strip_loop
strip_loop-agree zero g s h k = elim h [ ]
strip_loop-agree (suc f) zero s h k = elim k [ ]
strip_loop-agree (suc f) (suc g) s h k = elim (strip_round-Next (trim_space s)) [
  | inl (r, e) ↦ e (strip_loop f) ∙ sym (e (strip_loop g))
  | inr (t, lt, e) ↦
      rw (e (strip_loop f), e (strip_loop g))
        (strip_loop-agree f g t (omega (arith, length-trim_space s))
          (omega (arith, length-trim_space s)))
]

-- The loop without fuel: a round that goes on with `t` has the result of `t`.
pub strip-go :
    (s t : Bytes)
    → length t < length s
    → ((again : Bytes → Option Bytes) → strip_round again (trim_space s) ≡ again t)
    → strip_leading_comments s ≡ strip_leading_comments t
unfolding strip_leading_comments strip_loop
strip-go s t lt e =
    rw (e (strip_loop (length s)))
      (rw (strip_loop-agree (length s) (suc (length t)) t lt (omega arith)))

pub strip-stop :
    (s r : Bytes)
    → ((again : Bytes → Option Bytes) → strip_round again (trim_space s) ≡ some r)
    → strip_leading_comments s ≡ r
unfolding strip_leading_comments strip_loop
strip-stop s r e = rw (e (strip_loop (length s)))

-- Texts with one trimmed form have one result.
pub strip-trim_space :
    (s t : Bytes)
    → trim_space s ≡ trim_space t
    → strip_leading_comments s ≡ strip_leading_comments t
strip-trim_space s t same = elim (strip_round-Next (trim_space s)) [
  | inl (r, e) ↦ strip-stop s r e ∙ sym (strip-stop t r (rw same at e))
  | inr (u, lt, e) ↦
      strip-go s u (omega (arith, length-trim_space s)) e
      ∙ sym (strip-go t u (omega (arith, length-trim_space t, ap length same)) (rw same at e))
]
