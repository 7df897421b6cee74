-- ===== src/Cdc/Connect/Starts.antt =====
-- Where replication starts, and what is there by then.
use waltap.Prelude.{
  ℕ, ◌≢◌, codes, ◌≡◌, refl, sym, ap, ◌∙◌, ◌⊎◌, inl, inr, Option, none, some, List, [], ◌∷◌, ◌++◌,
  append-nil, append_assoc, Bytes, arith,
}
use waltap.Cdc.Snapshot.{Fetched, fetched, unread}
use waltap.Cdc.Connect.{
  Command, start_replication, RunError, connect_error, identify_error, publication_error,
  start_error, Server, Config, Tried, gave_up, went_on, ◌>>=◌, ask, create_slot, open_normal,
  open_replication, identify_system, join_tables, publication_sql, publish_unless,
  ensure_publication, get_slot_lsn, position_of, ensure_slot, start_at, start_stream,
}

pub went_on_same :
    {E A : Type 0} (l k : List Command) (a b : A)
    → ◌≡◌ {A = Tried E A} (went_on l a) (went_on k b)
    → (l ≡ k) × (a ≡ b)
went_on_same l k a b e = (cc, cc)

joined :
    {E B : Type 0} (l : List Command) (r : Tried E B) (log : List Command) (b : B)
    → (elim r [ gave_up more e ↦ gave_up (l ++ more) e | went_on more c ↦ went_on (l ++ more) c ])
      ≡ went_on log b
    → (k : List Command) × (r ≡ went_on k b) × (log ≡ l ++ k)
joined l (gave_up more e) log b h = absurd cc
joined l (went_on more c) log b h =
    let (same_log, same) = went_on_same (l ++ more) log c b h in
    (more, ap (went_on more) same, sym same_log)

module _ {E A B : Type 0} where
  -- A chain that went on did so at both links.
  pub links_of_chain :
      (first : Tried E A) (next : A → Tried E B) (log : List Command) (b : B)
      → (first >>= next) ≡ went_on log b
      → (l : List Command) × (a : A) × (k : List Command) × (first ≡ went_on l a)
        × (next a ≡ went_on k b)
        × (log ≡ l ++ k)
  links_of_chain (gave_up l e) next log b h = absurd cc
  links_of_chain (went_on l a) next log b h =
      let (k, r, same) = joined l (next a) log b h in (l, a, k, refl, r, same)

ask-went_on :
    {E : Type 0} (command : Command) (failure : E → RunError E) (o : Option E) (l : List Command)
    (u : Unit {0})
    → ask command failure o ≡ went_on l u
    → (o ≡ none) × (l ≡ command ∷ [])
ask-went_on command failure none l u h = (refl, cc)
ask-went_on command failure (some e) l u h = absurd cc

Fetched-cases :
    {E A : Type 0} (x : Fetched E A) → ((a : A) × (x ≡ fetched a)) ⊎ ((e : E) × (x ≡ unread e))
Fetched-cases (fetched a) = inl (a, refl)
Fetched-cases (unread e) = inr (e, refl)

-- The last command of a log.
abbrev pub Last : Command → List Command → Type 0
Last c log = (before : List Command) × (log ≡ before ++ c ∷ [])

Last-append : (c : Command) (log l k : List Command) → log ≡ l ++ k → Last c k → Last c log
Last-append c log l k same (before, e) =
    (l ++ before, same ∙ ap (λ x. l ++ x) e ∙ sym (append_assoc l before (c ∷ [])))

position_of-cases :
    (o : Option ℕ) (slot : ℕ) → position_of o ≡ slot → (o ≡ some slot) ⊎ ((o ≡ none) × (slot ≡ 0))
position_of-cases none slot e = inr (refl, sym e)
position_of-cases (some lsn) slot e = inl (ap some e)

-- Names with a comma and a space between them.
pub data IsListed : List Bytes → Bytes → Type 0 where
  one_name : {t : Bytes} → IsListed (t ∷ []) t
  more_names :
      {t u rest : Bytes} {ts : List Bytes}
      → IsListed (u ∷ ts) rest
      → IsListed (t ∷ u ∷ ts) (t ++ codes ", " ++ rest)

-- The statement that creates a publication for these tables, or for all where there are none.
abbrev pub IsPublication : Bytes → List Bytes → Bytes → Type 0
IsPublication name tables sql =
    ((tables ≡ []) × (sql ≡ codes "CREATE PUBLICATION " ++ name ++ codes " FOR ALL TABLES"))
    ⊎ ((names : Bytes) × IsListed tables names
        × (sql ≡ codes "CREATE PUBLICATION " ++ name ++ codes " FOR TABLE " ++ names))

join_tables-IsListed : (t : Bytes) (ts : List Bytes) → IsListed (t ∷ ts) (join_tables (t ∷ ts))
unfolding join_tables
join_tables-IsListed t [] = one_name
join_tables-IsListed t (u ∷ ts) = more_names (join_tables-IsListed u ts)

publication_sql-IsPublication :
    (name : Bytes) (tables : List Bytes) → IsPublication name tables (publication_sql name tables)
unfolding publication_sql
publication_sql-IsPublication name [] = inl (refl, refl)
publication_sql-IsPublication name (t ∷ ts) =
    inr (join_tables (t ∷ ts), join_tables-IsListed t ts, refl)

module _ {E : Type 0} (server : Server E) where
  -- The position of the slot: a new one's, or the one that the server has for it.
  abbrev pub SlotAt : ℕ → Type 0
  SlotAt slot =
      ((point : Bytes) × (server.slot ≡ fetched point)
        × ((server.parse_lsn point ≡ some slot) ⊎ ((server.parse_lsn point ≡ none) × (slot ≡ 0))))
      ⊎ ((e : E) × (row : Bytes) × (rows : List Bytes) × (server.slot ≡ unread e)
          × (server.slot_rows ≡ fetched (row ∷ rows))
          × (server.parse_lsn row ≡ some slot))

  get_slot_lsn-rows :
      (e : E) (l : List Command) (slot : ℕ)
      → get_slot_lsn server e ≡ went_on l slot
      → (row : Bytes) × (rows : List Bytes) × (server.slot_rows ≡ fetched (row ∷ rows))
        × (server.parse_lsn row ≡ some slot)
  unfolding get_slot_lsn
  get_slot_lsn-rows e l slot h = ground arith

  ensure_slot-SlotAt :
      (l : List Command) (slot : ℕ) → ensure_slot server ≡ went_on l slot → SlotAt slot
  unfolding ensure_slot
  ensure_slot-SlotAt l slot h = elim (Fetched-cases server.slot) [
    | inl (point, e) ↦
        let same =
          went_on_same _ l (position_of (server.parse_lsn point)) slot (rw (ensure_slot, e) at h) in
        inl (point, e, position_of-cases (server.parse_lsn point) slot same.1)
    | inr (f, e) ↦
        let created : Tried E (Unit {0}) = went_on (create_slot ∷ []) tt in
        let (l1, u, k, c, got, s) =
          links_of_chain created (λ _. get_slot_lsn server f) l slot (rw (ensure_slot, e) at h) in
        let (row, rows, r, p) = get_slot_lsn-rows f k slot got in inr (f, row, rows, e, r, p)
  ]

  start_at-position :
      (override : Bytes) (slot lsn : ℕ) (l : List Command)
      → start_at server override slot ≡ went_on l lsn
      → ((override ≡ []) × (lsn ≡ slot)) ⊎ (server.parse_lsn override ≡ some lsn)
  start_at-position [] slot lsn l h = inl (refl, sym (went_on_same [] l slot lsn h).1)
  start_at-position (c ∷ s) slot lsn l h = ground arith

  start_replication-Last :
      (at lsn : ℕ) (log : List Command)
      → (ask (start_replication at) start_error (server.start at) >>= λ _. went_on [] at)
        ≡ went_on log lsn
      → (at ≡ lsn) × Last (start_replication lsn) log
  start_replication-Last at lsn log h =
      let (l, u, k, c, h', s) =
        links_of_chain (ask (start_replication at) start_error (server.start at)) _ log lsn h in
      let (no_error, sent) =
        ask-went_on (start_replication at) start_error (server.start at) l u c in
      let (no_more, same) = went_on_same [] k at lsn h' in
      (same, ([], s ∙ rw (sym no_more, sent, same) (append-nil (start_replication lsn ∷ []))))

  -- Behind the slot.
  start_at-Last :
      (override : Bytes) (slot lsn : ℕ) (log : List Command)
      → (start_at server override slot >>= λ at.
          ask (start_replication at) start_error (server.start at) >>= λ _. went_on [] at)
        ≡ went_on log lsn
      → Last (start_replication lsn) log
        × (((override ≡ []) × (lsn ≡ slot)) ⊎ (server.parse_lsn override ≡ some lsn))
  start_at-Last override slot lsn log h =
      let (l, at, k, c, h', s) = links_of_chain (start_at server override slot) _ log lsn h in
      let (same, last) = start_replication-Last at lsn k h' in
      (
        Last-append (start_replication lsn) log l k s last,
        start_at-position override slot lsn l (rw same at c),
      )

module _ {E : Type 0} (server : Server E) (table_list : List Bytes → List Bytes) where
  -- The publication was there, or it was created for the filter's tables.
  abbrev pub Published : Config → Type 0
  Published config =
      (n : ℕ) × (server.publications ≡ fetched n)
      × ((n ≢ 0)
          ⊎ ((sql : Bytes) × IsPublication config.publication (table_list config.filter.tables) sql
              × (server.publish sql ≡ none)))

  publish_cases :
      (config : Config) (n : ℕ) (l : List Command) (u : Unit {0})
      → publish_unless server table_list config (fetched n) ≡ went_on l u
      → (n ≢ 0)
        ⊎ (server.publish (publication_sql config.publication (table_list config.filter.tables))
            ≡ none)
  publish_cases config n l u h = ground arith

  publish_unless-Published :
      (config : Config) (l : List Command) (u : Unit {0})
      → publish_unless server table_list config server.publications ≡ went_on l u
      → Published config
  publish_unless-Published config l u h = elim (Fetched-cases server.publications) [
    | inl (n, e) ↦ (
      n,
      e,
      elim (publish_cases config n l u (rw e at h)) [
        | inl some_found ↦ inl some_found
        | inr created ↦ inr (_, publication_sql-IsPublication _ _, created)
      ],
    )
    | inr (f, e) ↦ let bad = rw e at h in absurd (cc)
  ]

  ensure_publication-Published :
      (config : Config) (l : List Command) (u : Unit {0})
      → ensure_publication server table_list config ≡ went_on l u
      → Published config
  unfolding ensure_publication
  ensure_publication-Published config l u h =
      let (l1, u1, k1, c1, h1, s1) =
        links_of_chain (ask open_normal publication_error server.normal) _ l u h in
      publish_unless-Published config k1 u h1

  -- Where replication is started, the publication was there before, or was created for the tables
  -- that `TableList` gives of the filter, or for all where there are none, and the slot's position
  -- was got; the start is the last command, at the position
  -- that was set, if one was, and else at that of the slot: the consistent point of a new one, or 0
  -- where that cannot be read, and the confirmed position of one that could not be created.
  pub start_stream-Last :
      (config : Config) (log : List Command) (lsn : ℕ)
      → start_stream server table_list config ≡ went_on log lsn
      → Last (start_replication lsn) log
        × Published config
        × ((slot : ℕ) × SlotAt server slot
            × (((config.start_lsn_override ≡ []) × (lsn ≡ slot))
                ⊎ (server.parse_lsn config.start_lsn_override ≡ some lsn)))
  unfolding start_stream ensure_publication
  start_stream-Last config log lsn h =
      let (l1, u1, k1, c1, h1, s1) =
        links_of_chain (ask open_replication connect_error server.replication) _ log lsn h in
      let (l2, u2, k2, c2, h2, s2) =
        links_of_chain (ask identify_system identify_error server.identify) _ k1 lsn h1 in
      let (l3, u3, k3, c3, h3, s3) =
        links_of_chain (ensure_publication server table_list config) _ k2 lsn h2 in
      let (l4, slot, k4, c4, h4, s4) = links_of_chain (ensure_slot server) _ k3 lsn h3 in
      let (last, position) = start_at-Last server config.start_lsn_override slot lsn k4 h4 in
      let last3 = Last-append (start_replication lsn) k3 l4 k4 s4 last in
      let last2 = Last-append (start_replication lsn) k2 l3 k3 s3 last3 in
      let last1 = Last-append (start_replication lsn) k1 l2 k2 s2 last2 in
      (
        Last-append (start_replication lsn) log l1 k1 s1 last1,
        ensure_publication-Published config l3 u3 c3,
        (slot, ensure_slot-SlotAt server l4 slot c4, position),
      )
