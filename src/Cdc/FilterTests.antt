-- ===== src/Cdc/FilterTests.antt =====
-- internal/cdc/filter.go: the theorems at concrete inputs, and a run of the code.
use waltap.Prelude.{
  ℕ, ◌≡◌, ◌↔◌, refl, true, none, inl, inr, List, [], ◌∷◌, arith, Bytes, codes, bytes_eq, to_lower,
  to_upper, trim_space,
}
use waltap.Cdc.Event.{ChangeEvent}
use waltap.Cdc.Filter.{
  split_comma, is_member, add, collect, names_of, new_filter, passes, match_event,
}
use waltap.Cdc.Filter.Names.{join}
use waltap.Cdc.Filter.Matches.{ActionPasses, TablePasses, match_event-new_filter}
use waltap.Cdc.Filter.Sets.{set_of, match_sets, SameNamed, match_event-NameSet}

abbrev tables : List Bytes
tables = codes " Public.USERS " ∷ codes " " ∷ []

abbrev actions : List Bytes
actions = codes "insert" ∷ codes "Delete" ∷ []

abbrev users_event : ChangeEvent ℕ
users_event = record {
  action = codes "DELETE";
  schema = codes "public";
  table = codes "Users";
  new = none;
  old = none;
  timestamp = 5;
  lsn = codes "0/1";
  xid = 9;
}

test_match_event : match_event (new_filter (join tables) (join actions)) users_event ≡ true
unfolding match_event new_filter names_of collect split_comma add is_member passes trim_space
    to_lower to_upper bytes_eq join
test_match_event = refl

match_event-new_filter_example :
    (match_event (new_filter (join tables) (join actions)) users_event ≡ true)
    ↔ (ActionPasses tables actions users_event × TablePasses tables actions users_event)
match_event-new_filter_example =
    match_event-new_filter tables actions users_event (omega arith, (omega arith, tt))
      (omega arith, (omega arith, tt))

abbrev turned_actions : List Bytes
turned_actions = codes "Delete" ∷ codes "insert" ∷ []

turned-SameNamed : SameNamed to_upper actions turned_actions
turned-SameNamed w = (
  λ n. elim n [ inl p ↦ inr (inl p) | inr (inl q) ↦ inl q | inr (inr b) ↦ absurd b ],
  λ n. elim n [ inl q ↦ inr (inl q) | inr (inl p) ↦ inl p | inr (inr b) ↦ absurd b ],
)

match_event-NameSet_example :
    (set_of (new_filter (join tables) (join actions)).tables
      ≡ set_of (new_filter (join tables) (join turned_actions)).tables)
    × (set_of (new_filter (join tables) (join actions)).actions
        ≡ set_of (new_filter (join tables) (join turned_actions)).actions)
    × (match_event (new_filter (join tables) (join actions)) users_event
        ≡ match_sets
            (set_of (new_filter (join tables) (join actions)).tables)
            (set_of (new_filter (join tables) (join actions)).actions)
            users_event)
    × (match_event (new_filter (join tables) (join actions)) users_event
        ≡ match_event (new_filter (join tables) (join turned_actions)) users_event)
match_event-NameSet_example =
    match_event-NameSet tables tables actions turned_actions users_event
      (omega arith, (omega arith, tt)) (omega arith, (omega arith, tt))
      (omega arith, (omega arith, tt)) (omega arith, (omega arith, tt)) (λ w. (λ n. n, λ n. n))
      turned-SameNamed
