-- ===== src/Cdc/Filter/Matches.antt =====
-- When an event passes.
use waltap.Prelude.{
  ◌≡◌, ◌↔◌, refl, Bool, true, false, ◌&&◌, ◌||◌, ◌⊎◌, inl, inr, List, [], ◌∷◌, ◌++◌, Bytes,
  to_lower, to_upper, All, Lacks,
}
use waltap.Cdc.Event.{ChangeEvent}
use waltap.Cdc.Filter.{is_member, names_of, new_filter, passes, match_event}
use waltap.Cdc.Filter.Names.{join, IsBlank, Named, names_of-Named, names_of-none}

passes-cases :
    (names : List Bytes) (found : Bool)
    → (passes names found ≡ true) ↔ ((names ≡ []) ⊎ (found ≡ true))
unfolding passes
passes-cases [] found = (λ e. inl refl, λ h. refl)
passes-cases (w ∷ ws) found = (λ e. inr e, λ h. elim h [ inl e ↦ absurd cc | inr e ↦ e ])

and_cases : (a b : Bool) → ((a && b) ≡ true) ↔ ((a ≡ true) × (b ≡ true))
and_cases true b = (λ e. (refl, e), λ h. h.1)
and_cases false b = (λ e. absurd cc, λ h. absurd cc)

or_cases : (a b : Bool) → ((a || b) ≡ true) ↔ ((a ≡ true) ⊎ (b ≡ true))
or_cases true b = (λ e. inl refl, λ h. refl)
or_cases false b = (λ e. inr e, λ h. elim h [ inl e ↦ absurd cc | inr e ↦ e ])

-- The actions that are named, and the event's table, alone or behind its schema.
module _ {V : Type 0} (tables actions : List Bytes) where
  abbrev pub ActionPasses : ChangeEvent V → Type 0
  ActionPasses event = All IsBlank actions ⊎ Named to_upper actions event.action

  abbrev pub TablePasses : ChangeEvent V → Type 0
  TablePasses event =
      All IsBlank tables
      ⊎ Named to_lower tables (to_lower event.table)
      ⊎ Named to_lower tables (to_lower (event.schema ++ b'.' ∷ event.table))

  passes-action :
      (event : ChangeEvent V)
      → All (Lacks b',') actions
      → (passes
            (names_of to_upper (join actions))
            (is_member event.action (names_of to_upper (join actions)))
          ≡ true)
        ↔ ActionPasses event
  passes-action event h =
      let names = names_of to_upper (join actions) in
      let (to, back) = passes-cases names (is_member event.action names) in
      let (none_to, none_back) = names_of-none to_upper actions h in
      let (named_to, named_back) = names_of-Named to_upper event.action actions h in
      (
        λ q. elim (to q) [ inl e ↦ inl (none_to e) | inr e ↦ inr (named_to e) ],
        λ p. elim p [ inl e ↦ back (inl (none_back e)) | inr e ↦ back (inr (named_back e)) ],
      )

  passes-table :
      (event : ChangeEvent V) (name qualified : Bytes)
      → All (Lacks b',') tables
      → (passes (names_of to_lower (join tables)) (
            is_member name (names_of to_lower (join tables))
            || is_member qualified (names_of to_lower (join tables)))
          ≡ true)
        ↔ (All IsBlank tables ⊎ Named to_lower tables name ⊎ Named to_lower tables qualified)
  passes-table event name qualified h =
      let names = names_of to_lower (join tables) in
      let (to, back) = passes-cases names (is_member name names || is_member qualified names) in
      let (or_to, or_back) = or_cases (is_member name names) (is_member qualified names) in
      let (none_to, none_back) = names_of-none to_lower tables h in
      let (name_to, name_back) = names_of-Named to_lower name tables h in
      let (full_to, full_back) = names_of-Named to_lower qualified tables h in
      (
        λ q. elim (to q) [
          | inl e ↦ inl (none_to e)
          | inr e ↦ inr (elim (or_to e) [ inl f ↦ inl (name_to f) | inr f ↦ inr (full_to f) ])
        ],
        λ p. elim p [
          | inl e ↦ back (inl (none_back e))
          | inr (inl f) ↦ back (inr (or_back (inl (name_back f))))
          | inr (inr f) ↦ back (inr (or_back (inr (full_back f))))
        ],
      )

  -- A filter of two flags, each a list of parts without commas between commas, lets exactly those
  -- events pass whose action is named, where any is, and whose table is named alone or behind its
  -- schema and a dot, where any is: spaces around a part, its case, and parts of spaces do not count.
  pub match_event-new_filter :
      (event : ChangeEvent V)
      → All (Lacks b',') tables
      → All (Lacks b',') actions
      → (match_event (new_filter (join tables) (join actions)) event ≡ true)
        ↔ (ActionPasses event × TablePasses event)
  unfolding match_event new_filter
  match_event-new_filter event ht ha =
      let (action_to, action_back) = passes-action event ha in
      let (table_to, table_back) =
        passes-table event (to_lower event.table) (to_lower (event.schema ++ b'.' ∷ event.table))
          ht in
      let (to, back) = and_cases _ _ in
      (
        λ q. let (a, t) = to q in (action_to a, table_to t),
        λ p. back (action_back p.0, table_back p.1),
      )
