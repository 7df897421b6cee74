-- ===== src/Cdc/Filter.antt =====
-- internal/cdc/filter.go: which events pass to the sink. A set of names is a list without order;
-- a nil map and an empty one are told apart by no method.
pub mod Names
pub mod Matches
pub mod Sets
use waltap.Prelude.{
  ℕ, Bool, true, false, not, ◌&&◌, ◌||◌, Option, none, some, List, [], ◌∷◌, ◌++◌, ◌==◌,
  if◌then◌else◌, Bytes, bytes_eq, to_lower, to_upper, trim_space,
}
use waltap.Cdc.Event.{ChangeEvent}

pub record Filter : Type 0 where
  pub tables : List Bytes
  pub actions : List Bytes

-- `strings.Split(s, ",")`: the part that is open at the end of the text comes last.
unfoldable pub split_comma : Bytes → Bytes → List Bytes
split_comma cur [] = cur ∷ []
split_comma cur (c ∷ s) = elim (c == b',') [
  | true ↦ cur ∷ split_comma [] s
  | false ↦ split_comma (cur ++ c ∷ []) s
]

unfoldable pub is_member : Bytes → List Bytes → Bool
unfolding bytes_eq
is_member w [] = false
is_member w (v ∷ vs) = bytes_eq v w || is_member w vs

-- A write to the set of names.
unfoldable pub add : Bytes → List Bytes → List Bytes
unfolding is_member
add w names = if is_member w names then names else w ∷ names

-- The loop over the parts of a flag; `fold` is ToLower or ToUpper.
unfoldable pub collect : (Bytes → Bytes) → List Bytes → List Bytes → List Bytes
unfolding add
collect fold [] names = names
collect fold (part ∷ parts) names = elim (trim_space part) [
  | [] ↦ collect fold parts names
  | c ∷ t ↦ collect fold parts (add (fold (c ∷ t)) names)
]

-- The set that a flag names: nil for an empty flag.
unfoldable pub names_of : (Bytes → Bytes) → Bytes → List Bytes
unfolding collect split_comma
names_of fold [] = []
names_of fold (c ∷ s) = collect fold (split_comma [] (c ∷ s)) []

unfoldable pub new_filter : Bytes → Bytes → Filter
unfolding names_of to_lower to_upper
new_filter tables actions = record {
  tables = names_of to_lower tables;
  actions = names_of to_upper actions;
}

-- An empty set lets everything pass.
unfoldable pub passes : List Bytes → Bool → Bool
passes [] found = true
passes (w ∷ ws) found = found

module _ {V : Type 0} where
  unfoldable pub match_event : Filter → ChangeEvent V → Bool
  unfolding passes is_member to_lower
  match_event f event =
      passes f.actions (is_member event.action f.actions)
      && passes f.tables (
          is_member (to_lower event.table) f.tables
          || is_member (to_lower (event.schema ++ b'.' ∷ event.table)) f.tables)
