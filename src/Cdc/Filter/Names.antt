-- ===== src/Cdc/Filter/Names.antt =====
-- The set of names that a flag gives: the parts between its commas.
use waltap.Prelude.{
  ℕ, ◌≡◌, ◌≢◌, ◌↔◌, refl, sym, ◌∙◌, ap, Bool, true, false, ◌||◌, ◌⊎◌, inl, inr, List, [], ◌∷◌, ◌++◌,
  append-nil, append_assoc, arith, ◌==◌, Bytes, bytes_eq, bytes_eq_refl, eq_of_bytes_eq, trim_space,
  All, Lacks, Bool-cases, List-cases,
}
use waltap.Cdc.Filter.{split_comma, is_member, add, collect, names_of}

-- A flag as it is written: its parts with commas between them.
unfoldable pub join : List Bytes → Bytes
join [] = []
join (p ∷ []) = p
join (p ∷ q ∷ ps) = p ++ b',' ∷ join (q ∷ ps)

split_comma-byte :
    (cur : Bytes) (c : ℕ) (s : Bytes)
    → (c == b',') ≡ false
    → split_comma cur (c ∷ s) ≡ split_comma (cur ++ c ∷ []) s
unfolding split_comma
split_comma-byte cur c s off = rw (split_comma, off)

split_comma-part :
    (cur p : Bytes)
    → Lacks b',' p
    → (rest : Bytes) → split_comma cur (p ++ rest) ≡ split_comma (cur ++ p) rest
unfolding split_comma
split_comma-part cur [] h rest = rw (append-nil cur)
split_comma-part cur (c ∷ p) h rest =
    let off : (c == b',') ≡ false = ground (arith, h.0) in
    split_comma-byte cur c (p ++ rest) off
    ∙ rw (append_assoc cur (c ∷ []) p) at (split_comma-part (cur ++ c ∷ []) p h.1 rest)

split_comma-join :
    (p : Bytes) (ps : List Bytes)
    → All (Lacks b',') (p ∷ ps)
    → split_comma [] (join (p ∷ ps)) ≡ p ∷ ps
unfolding split_comma join
split_comma-join p [] h = rw (append-nil p) at (split_comma-part [] p h.0 [])
split_comma-join p (q ∷ ps) h =
    split_comma-part [] p h.0 (b',' ∷ join (q ∷ ps))
    ∙ ap (λ rest. p ∷ rest) (split_comma-join q ps h.1)

-- A part of blanks names nothing.
abbrev pub IsBlank : Bytes → Type 0
IsBlank part = trim_space part ≡ []

-- A part names `w` if it is `w` without the spaces around it, in the case that `fold` gives.
abbrev pub Named : (Bytes → Bytes) → List Bytes → Bytes → Type 0
Named fold [] w = ⊥
Named fold (part ∷ parts) w =
    ((trim_space part ≢ []) × (fold (trim_space part) ≡ w)) ⊎ Named fold parts w

IsBlank-cases : (part : Bytes) → IsBlank part ⊎ (trim_space part ≢ [])
IsBlank-cases part = elim (List-cases (trim_space part)) [
  | inl e ↦ inl e
  | inr (c, t, e) ↦ inr (rw e (λ q. cc))
]

or-cases : (a b : Bool) → (a || b) ≡ true → (a ≡ true) ⊎ (b ≡ true)
or-cases true b e = inl refl
or-cases false b e = inr e

or-left : (a b : Bool) → a ≡ true → (a || b) ≡ true
or-left true b e = refl
or-left false b e = cc

bytes_eq_of : (v w : Bytes) → v ≡ w → bytes_eq v w ≡ true
bytes_eq_of v w e = rw e (bytes_eq_refl w)

or_true : (a b : Bool) → b ≡ true → (a || b) ≡ true
or_true true b e = refl
or_true false b e = e

is_member-same :
    (w v : Bytes) (names : List Bytes)
    → is_member v names ≡ true
    → is_member w names ≡ (bytes_eq v w || is_member w names)
unfolding is_member
is_member-same w v names e = elim (Bool-cases (bytes_eq v w)) [
  | inr f ↦ rw f
  | inl f ↦ let same = eq_of_bytes_eq v w f in rw (f, ← same, e)
]

is_member-add :
    (w v : Bytes) (names : List Bytes)
    → is_member w (add v names) ≡ (bytes_eq v w || is_member w names)
unfolding add is_member
is_member-add w v names = elim (Bool-cases (is_member v names)) [
  | inr e ↦ rw (e, is_member)
  | inl e ↦ rw e (is_member-same w v names e)
]

collect-blank :
    (fold : Bytes → Bytes) (part : Bytes) (parts names : List Bytes)
    → IsBlank part
    → collect fold (part ∷ parts) names ≡ collect fold parts names
unfolding collect
collect-blank fold part parts names e = rw (collect, e)

collect-part :
    (fold : Bytes → Bytes) (part : Bytes) (parts names : List Bytes)
    → trim_space part ≢ []
    → collect fold (part ∷ parts) names ≡ collect fold parts (add (fold (trim_space part)) names)
unfolding collect
collect-part fold part parts names ne = elim (List-cases (trim_space part)) [
  | inl e ↦ absurd (ne e)
  | inr (c, t, e) ↦ rw (collect, e)
]

collect-Named :
    (fold : Bytes → Bytes) (w : Bytes) (parts names : List Bytes)
    → (is_member w (collect fold parts names) ≡ true)
      ↔ (Named fold parts w ⊎ (is_member w names ≡ true))
unfolding collect
collect-Named fold w [] names = (λ e. inr e, λ x. elim x [ inl b ↦ absurd b | inr e ↦ e ])
collect-Named fold w (part ∷ parts) names = elim (IsBlank-cases part) [
  | inl e ↦
      let (to, back) = collect-Named fold w parts names in
      rw (collect-blank fold part parts names e) (
        λ q. elim (to q) [ inl n ↦ inl (inr n) | inr m ↦ inr m ],
        λ x. elim x [
          | inl (inl n) ↦ absurd (n.0 e)
          | inl (inr n) ↦ back (inl n)
          | inr m ↦ back (inr m)
        ],
      )
  | inr ne ↦
      let v = fold (trim_space part) in
      let (to, back) = collect-Named fold w parts (add v names) in
      let same = is_member-add w v names in
      rw (collect-part fold part parts names ne) (
        λ q. elim (to q) [
          | inl n ↦ inl (inr n)
          | inr m ↦ elim (or-cases (bytes_eq v w) (is_member w names) (sym same ∙ m)) [
            | inl f ↦ inl (inl (ne, eq_of_bytes_eq v w f))
            | inr g ↦ inr g
          ]
        ],
        λ x. elim x [
          | inl (inl n) ↦
              back (inr (same ∙ or-left (bytes_eq v w) (is_member w names) (bytes_eq_of v w n.1)))
          | inl (inr n) ↦ back (inl n)
          | inr m ↦ back (inr (same ∙ or_true (bytes_eq v w) (is_member w names) m))
        ],
      )
]

names_of-split :
    (fold : Bytes → Bytes) (s : Bytes) → names_of fold s ≡ collect fold (split_comma [] s) []
unfolding names_of collect split_comma trim_space
names_of-split fold [] = refl
names_of-split fold (c ∷ s) = refl

names_of-join :
    (fold : Bytes → Bytes) (parts : List Bytes)
    → All (Lacks b',') parts
    → names_of fold (join parts) ≡ collect fold parts []
unfolding names_of collect join
names_of-join fold [] h = refl
names_of-join fold (p ∷ ps) h =
    names_of-split fold (join (p ∷ ps))
    ∙ ap (λ (parts : List Bytes). collect fold parts []) (split_comma-join p ps h)

-- The names of a flag are those of its parts.
pub names_of-Named :
    (fold : Bytes → Bytes) (w : Bytes) (parts : List Bytes)
    → All (Lacks b',') parts
    → (is_member w (names_of fold (join parts)) ≡ true) ↔ Named fold parts w
unfolding is_member
names_of-Named fold w parts h =
    let (to, back) = collect-Named fold w parts [] in
    rw (names_of-join fold parts h)
      (λ q. elim (to q) [ inl n ↦ n | inr m ↦ absurd cc ], λ n. back (inl n))

add-some : (v : Bytes) (names : List Bytes) → add v names ≢ []
unfolding add is_member
add-some v [] e = cc
add-some v (w ∷ names) e = elim (Bool-cases (is_member v (w ∷ names))) [
  | inl f ↦ let full : w ∷ names ≡ [] = rw (add, f) at e in cc
  | inr f ↦ let full : v ∷ w ∷ names ≡ [] = rw (add, f) at e in cc
]

collect-some :
    (fold : Bytes → Bytes) (parts names : List Bytes) → names ≢ [] → collect fold parts names ≢ []
unfolding collect
collect-some fold [] names ne e = ne e
collect-some fold (part ∷ parts) names ne e = elim (IsBlank-cases part) [
  | inl f ↦ collect-some fold parts names ne (rw (collect-blank fold part parts names f) at e)
  | inr f ↦
      collect-some fold parts _ (add-some (fold (trim_space part)) names)
        (rw (collect-part fold part parts names f) at e)
]

collect-none :
    (fold : Bytes → Bytes) (parts : List Bytes) → (collect fold parts [] ≡ []) ↔ All IsBlank parts
unfolding collect
collect-none fold [] = (λ e. tt, λ h. refl)
collect-none fold (part ∷ parts) = elim (IsBlank-cases part) [
  | inl e ↦
      let (to, back) = collect-none fold parts in
      rw (collect-blank fold part parts [] e) (λ q. (e, to q), λ h. back h.1)
  | inr ne ↦ rw (collect-part fold part parts [] ne) (
    λ q. absurd (collect-some fold parts _ (add-some (fold (trim_space part)) []) q),
    λ h. absurd (ne h.0),
  )
]

-- It names nothing exactly if its parts are blank.
pub names_of-none :
    (fold : Bytes → Bytes) (parts : List Bytes)
    → All (Lacks b',') parts
    → (names_of fold (join parts) ≡ []) ↔ All IsBlank parts
names_of-none fold parts h = rw (names_of-join fold parts h) (collect-none fold parts)
