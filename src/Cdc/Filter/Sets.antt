-- ===== src/Cdc/Filter/Sets.antt =====
-- internal/cdc/filter.go: the maps of a filter as sets of names, without order and repetition.
use mathlib.Core.Quot
use mathlib.Core.Quot.{Quot, Quot-set}
use waltap.Prelude.{
  ◌≡◌, ◌↔◌, refl, sym, ◌∙◌, ap, Bool, true, false, ◌&&◌, ◌||◌, List, [], ◌∷◌, ◌++◌, Bytes,
  bytes_eq_refl, to_lower, to_upper, All, Lacks,
}
use waltap.Cdc.Event.{ChangeEvent}
use waltap.Cdc.Filter.{is_member, names_of, Filter, new_filter, passes, match_event}
use waltap.Cdc.Filter.Names.{join, Named, names_of-Named}

abbrev pub SameNames : List Bytes → List Bytes → Type 0
SameNames xs ys = (w : Bytes) → is_member w xs ≡ is_member w ys

abbrev pub NameSet : Type 0
NameSet = Quot SameNames

abbrev pub set_of : List Bytes → NameSet
set_of = Quot.mk

-- `_, ok := names[w]`
unfoldable pub has : Bytes → NameSet → Bool
has w = Quot.lift (hlevel) (is_member w) (λ xs ys h. h w)

abbrev no_name : List Bytes → Bool
no_name [] = true
no_name (w ∷ ws) = false

is_member-head : (w : Bytes) (ws : List Bytes) → is_member w (w ∷ ws) ≡ true
unfolding is_member
is_member-head w ws = rw (bytes_eq_refl w)

not_in_none : (w : Bytes) → is_member w [] ≡ false
unfolding is_member
not_in_none w = refl

pub no_name-SameNames : (xs ys : List Bytes) → SameNames xs ys → no_name xs ≡ no_name ys
no_name-SameNames [] [] h = refl
no_name-SameNames (x ∷ xs) (y ∷ ys) h = refl
no_name-SameNames [] (y ∷ ys) h =
    let bad = sym (not_in_none y) ∙ h y ∙ is_member-head y ys in absurd (cc)
no_name-SameNames (x ∷ xs) [] h =
    let bad = sym (is_member-head x xs) ∙ h x ∙ not_in_none x in absurd (cc)

-- `len(names) == 0`
unfoldable pub is_empty : NameSet → Bool
is_empty = Quot.lift (hlevel) no_name no_name-SameNames

passes-set :
    (names : List Bytes) (found : Bool) → passes names found ≡ (is_empty (set_of names) || found)
unfolding passes is_empty
passes-set [] found = refl
passes-set (w ∷ ws) found = refl

module _ {V : Type 0} where
  -- `Match` on two sets.
  abbrev pub match_sets : NameSet → NameSet → ChangeEvent V → Bool
  match_sets tables actions event =
      (is_empty actions || has event.action actions)
      && (is_empty tables
          || (has (to_lower event.table) tables
              || has (to_lower (event.schema ++ b'.' ∷ event.table)) tables))

  match_event-match_sets :
      (f : Filter) (event : ChangeEvent V)
      → match_event f event ≡ match_sets (set_of f.tables) (set_of f.actions) event
  unfolding match_event has
  match_event-match_sets f event = rw (passes-set f.actions _, passes-set f.tables _)

same_test : (a b : Bool) → (a ≡ true) ↔ (b ≡ true) → a ≡ b
same_test true b h = sym (h.0 refl)
same_test false true h = h.1 refl
same_test false false h = refl

-- The parts of two flags name the same.
abbrev pub SameNamed : (Bytes → Bytes) → List Bytes → List Bytes → Type 0
SameNamed fold ps qs = (w : Bytes) → Named fold ps w ↔ Named fold qs w

names_of-set_of :
    (fold : Bytes → Bytes) (ps qs : List Bytes)
    → All (Lacks b',') ps
    → All (Lacks b',') qs
    → SameNamed fold ps qs
    → set_of (names_of fold (join ps)) ≡ set_of (names_of fold (join qs))
names_of-set_of fold ps qs hp hq same = Quot.sound λ w.
    let (to, back) = names_of-Named fold w ps hp in
    let (to', back') = names_of-Named fold w qs hq in
    let (there, here) = same w in
    same_test _ _ (λ e. back' (there (to e)), λ e. back (here (to' e)))

-- Two pairs of flags, lists of parts without commas between commas, that name the same tables and
-- the same actions, in whatever order and however often, give the same two sets; an event passes by
-- these sets alone, so both filters let the same events pass.
pub match_event-NameSet :
    {V : Type 0} (tables tables' actions actions' : List Bytes) (event : ChangeEvent V)
    → All (Lacks b',') tables
    → All (Lacks b',') tables'
    → All (Lacks b',') actions
    → All (Lacks b',') actions'
    → SameNamed to_lower tables tables'
    → SameNamed to_upper actions actions'
    → (set_of (new_filter (join tables) (join actions)).tables
        ≡ set_of (new_filter (join tables') (join actions')).tables)
      × (set_of (new_filter (join tables) (join actions)).actions
          ≡ set_of (new_filter (join tables') (join actions')).actions)
      × (match_event (new_filter (join tables) (join actions)) event
          ≡ match_sets
              (set_of (new_filter (join tables) (join actions)).tables)
              (set_of (new_filter (join tables) (join actions)).actions)
              event)
      × (match_event (new_filter (join tables) (join actions)) event
          ≡ match_event (new_filter (join tables') (join actions')) event)
unfolding new_filter
match_event-NameSet tables tables' actions actions' event ht ht' ha ha' same same' =
    let t = names_of-set_of to_lower tables tables' ht ht' same in
    let a = names_of-set_of to_upper actions actions' ha ha' same' in
    let f = new_filter (join tables) (join actions) in
    let f' = new_filter (join tables') (join actions') in
    let one = match_event-match_sets f event in
    (
      t,
      a,
      one,
      one
          ∙ ap (λ x. match_sets x (set_of f.actions) event) t
          ∙ ap (λ x. match_sets (set_of f'.tables) x event) a
          ∙ sym (match_event-match_sets f' event),
    )
