-- ===== src/Prelude/Trim.antt =====
-- Laws of `strings.TrimSpace` on lists of bytes.
use Prim.Native.Nat.{ℕ, ◌≤◌}
use mathlib.Core.Path.{◌≡◌, refl, sym, ◌∙◌}
use mathlib.Core.List.{[], ◌∷◌, ◌++◌}
use native.Mathlib.Omega.{arith}
use package.waltap.Prelude.Lists.{length, All}
use package.waltap.Prelude.Text.{Bytes, trim_left, trim_right, trim_space}

length-trim_left : (s : Bytes) → length (trim_left s) ≤ length s
unfolding trim_left
length-trim_left [] = omega arith
length-trim_left (c ∷ s) = ground (arith, length-trim_left s)

pub length-trim_right : (s : Bytes) → length (trim_right s) ≤ length s
unfolding trim_right
length-trim_right [] = omega arith
length-trim_right (c ∷ s) = ground (arith, length-trim_right s)

pub length-trim_space : (s : Bytes) → length (trim_space s) ≤ length s
unfolding trim_space
length-trim_space s = omega (arith, length-trim_left s, length-trim_right (trim_left s))

trim_right_idem : (s : Bytes) → trim_right (trim_right s) ≡ trim_right s
unfolding trim_right
trim_right_idem [] = refl
trim_right_idem (c ∷ s) = ground (arith, trim_right_idem s)

trim_left-trim_right : (s : Bytes) → trim_left (trim_right s) ≡ trim_right (trim_left s)
unfolding trim_left trim_right
trim_left-trim_right [] = refl
trim_left-trim_right (c ∷ s) = ground (arith, trim_left-trim_right s)

trim_left_idem : (s : Bytes) → trim_left (trim_left s) ≡ trim_left s
unfolding trim_left
trim_left_idem [] = refl
trim_left_idem (c ∷ s) = ground (arith, trim_left_idem s)

pub trim_space-trim_right : (s : Bytes) → trim_space (trim_right s) ≡ trim_space s
unfolding trim_space
trim_space-trim_right s = rw trim_left-trim_right (trim_right_idem (trim_left s))

trim_space-trim_left : (s : Bytes) → trim_space (trim_left s) ≡ trim_space s
unfolding trim_space
trim_space-trim_left s = rw trim_left_idem

pub trim_space_idem : (s : Bytes) → trim_space (trim_space s) ≡ trim_space s
trim_space_idem s =
    unfold trim_space in trim_space-trim_right (trim_left s) ∙ trim_space-trim_left s

-- A prefix keeps its end where something is left of the text behind it.
pub trim_right-append_ne :
    (p s : Bytes) {c : ℕ} {t : Bytes} → trim_right s ≡ c ∷ t → trim_right (p ++ s) ≡ p ++ c ∷ t
unfolding trim_right
trim_right-append_ne [] s e = e
trim_right-append_ne (d ∷ []) s e = rw e
trim_right-append_ne (d ∷ f ∷ p) s e = rw (trim_right-append_ne (f ∷ p) s e)

pub trim_right-append_nil : (p s : Bytes) → trim_right s ≡ [] → trim_right (p ++ s) ≡ trim_right p
unfolding trim_right
trim_right-append_nil [] s e = e
trim_right-append_nil (d ∷ p) s e = rw (trim_right-append_nil p s e)

pub trim_right-All {κ} : (P : ℕ → Type κ) (s : Bytes) → All P s → All P (trim_right s)
unfolding trim_right
trim_right-All P [] h = tt
trim_right-All P (c ∷ s) h = ground (arith, trim_right-All P s h.1)

-- A text is blank from either side.
pub trim_space-nil : (s : Bytes) → trim_right s ≡ [] → trim_space s ≡ []
unfolding trim_space trim_left
trim_space-nil s e = sym (trim_left-trim_right s) ∙ rw e
