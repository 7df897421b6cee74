-- ===== src/Cdc/Connect.antt =====
-- internal/cdc/stream.go: `Run` up to the loop, with `ensurePublication`, `ensureSlot` and
-- `getSlotLSN`. The server is a parameter; the commands that are sent to it are kept in order.
pub mod Starts
use waltap.Prelude.{
  ℕ, Bool, true, false, Option, none, some, List, [], ◌∷◌, ◌++◌, ◌==◌, if◌then◌else◌, Bytes, codes,
}
use waltap.Cdc.Filter.{Filter}
use waltap.Cdc.Snapshot.{Fetched, fetched, unread}

-- What is sent; the two connections are told apart by their commands.
pub data Command : Type 0 where
  open_replication identify_system open_normal find_publication : Command
  create_publication : (sql : Bytes) → Command
  create_slot find_slot : Command
  start_replication : (lsn : ℕ) → Command

pub data RunError (E : Type 0) : Type 0 where
  connect_error identify_error publication_error create_error start_error : E → RunError E
  -- a slot that cannot be created: the lookup's error comes with the first one
  lookup_error : E → E → RunError E
  slot_not_found : E → RunError E
  bad_slot_lsn : E → RunError E
  bad_override : RunError E

-- The server's answers, each with its error: the publications found by name, and the slots.
pub record Server (E : Type 0) : Type 0 where
  pub replication : Option E
  pub identify : Option E
  pub normal : Option E
  pub publications : Fetched E ℕ
  pub publish : Bytes → Option E
  pub slot : Fetched E Bytes
  pub lookup_connect : Option E
  pub slot_rows : Fetched E (List Bytes)
  pub start : ℕ → Option E
  pub parse_lsn : Bytes → Option ℕ

-- The fields of `Stream` that `Run` reads; an empty override is none.
pub record Config : Type 0 where
  pub publication : Bytes
  pub filter : Filter
  pub start_lsn_override : Bytes

-- The commands so far, and an error or a value.
pub data Tried (E A : Type 0) : Type 0 where
  gave_up : List Command → RunError E → Tried E A
  went_on : List Command → A → Tried E A

infixl 5 ◌>>=◌
abbrev pub ◌>>=◌ : {E A B : Type 0} → Tried E A → (A → Tried E B) → Tried E B
gave_up log e >>= next = gave_up log e
went_on log a >>= next = elim (next a) [
  | gave_up more e ↦ gave_up (log ++ more) e
  | went_on more b ↦ went_on (log ++ more) b
]

-- A command with its answer.
abbrev pub ask : {E : Type 0} → Command → (E → RunError E) → Option E → Tried E (Unit {0})
ask command failure none = went_on (command ∷ []) tt
ask command failure (some e) = gave_up (command ∷ []) (failure e)

unfoldable pub join_tables : List Bytes → Bytes
join_tables [] = []
join_tables (t ∷ []) = t
join_tables (t ∷ u ∷ ts) = t ++ codes ", " ++ join_tables (u ∷ ts)

-- The statement for the tables that the filter names, in the order that Go's map gives.
unfoldable pub publication_sql : Bytes → List Bytes → Bytes
unfolding join_tables
publication_sql name [] = codes "CREATE PUBLICATION " ++ name ++ codes " FOR ALL TABLES"
publication_sql name (t ∷ ts) =
    codes "CREATE PUBLICATION " ++ name ++ codes " FOR TABLE " ++ join_tables (t ∷ ts)

-- A new slot's position that cannot be parsed is 0.
abbrev pub position_of : Option ℕ → ℕ
position_of none = 0
position_of (some lsn) = lsn

module _ {E : Type 0} (server : Server E) where
  -- `getSlotLSN`, behind the error of creating the slot
  unfoldable pub get_slot_lsn : E → Tried E ℕ
  get_slot_lsn created = elim server.lookup_connect [
    | some e ↦ gave_up (open_normal ∷ []) (lookup_error created e)
    | none ↦ elim server.slot_rows [
      | unread e ↦ gave_up (open_normal ∷ find_slot ∷ []) (lookup_error created e)
      | fetched rows ↦ elim rows [
        | [] ↦ gave_up (open_normal ∷ find_slot ∷ []) (slot_not_found created)
        | row ∷ _ ↦ elim (server.parse_lsn row) [
          | none ↦ gave_up (open_normal ∷ find_slot ∷ []) (bad_slot_lsn created)
          | some lsn ↦ went_on (open_normal ∷ find_slot ∷ []) lsn
        ]
      ]
    ]
  ]

  -- Any error of creating the slot is taken for one of a slot that exists.
  unfoldable pub ensure_slot : Tried E ℕ
  unfolding get_slot_lsn
  ensure_slot = elim server.slot [
    | fetched point ↦ went_on (create_slot ∷ []) (position_of (server.parse_lsn point))
    | unread e ↦ went_on (create_slot ∷ []) tt >>= λ _. get_slot_lsn e
  ]

  abbrev pub start_at : Bytes → ℕ → Tried E ℕ
  start_at [] lsn = went_on [] lsn
  start_at (c ∷ s) lsn = elim (server.parse_lsn (c ∷ s)) [
    | none ↦ gave_up [] bad_override
    | some override ↦ went_on [] override
  ]

module _ {E : Type 0} (server : Server E) (table_list : List Bytes → List Bytes) where
  abbrev pub publish_unless : Config → Fetched E ℕ → Tried E (Unit {0})
  publish_unless config (unread e) = gave_up (find_publication ∷ []) (publication_error e)
  publish_unless config (fetched found) =
      if found == 0
      then (do
        _ ← went_on (find_publication ∷ []) tt
        ask
            (create_publication
              (publication_sql config.publication (table_list config.filter.tables)))
            create_error
            (server.publish (publication_sql config.publication (table_list config.filter.tables))))
      else went_on (find_publication ∷ []) tt

  unfoldable pub ensure_publication : Config → Tried E (Unit {0})
  unfolding publication_sql
  ensure_publication config = do
    _ ← ask open_normal publication_error server.normal
    publish_unless config server.publications

  -- `Run`, up to the loop: the position it starts from.
  unfoldable pub start_stream : Config → Tried E ℕ
  unfolding ensure_publication ensure_slot
  start_stream config = do
    _ ← ask open_replication connect_error server.replication
    _ ← ask identify_system identify_error server.identify
    _ ← ensure_publication config
    slot ← ensure_slot server
    lsn ← start_at server config.start_lsn_override slot
    _ ← ask (start_replication lsn) start_error (server.start lsn)
    went_on [] lsn
